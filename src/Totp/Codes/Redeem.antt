-- ===== src/Totp/Codes/Redeem.antt =====
-- apicrud/auth/totp_func.py, the loop over the backup codes: its end, and the list of codes that the
-- bytes stand for.
use apicrud.Prelude.{
  ℕ, zero, suc, ◌+◌, ◌*◌, ◌-◌, ◌<◌, ◌≤◌, true, false, Option, none, some, List, [], ◌∷◌, ◌++◌, ◌≡◌,
  inl, inr, refl, ap, ◌∙◌, arith, length, take, drop, ltb, if◌then◌else◌, ◌==◌, All, append_assoc,
  append_nil, length-append, take-append, drop-append, Bool-cases, lt→ltb,
}
use apicrud.Aes.{Bytes}
use apicrud.Totp.Codes.{bytes_eq, slice, scan_codes, snip}

-- The loop over the backup codes ends, with a match or without one, after at most one round for each
-- 16 bytes from where it stands, and one more.
pub scan_codes_total :
    (fuel : ℕ) (otp_hash codes : Bytes) (index : ℕ)
    → length codes ≤ index + 16 * fuel
    → (found : Option Bytes) × (scan_codes (suc fuel) otp_hash codes index ≡ some found)
unfolding scan_codes
scan_codes_total zero otp_hash codes index h =
    let outside : ltb index (length codes) ≡ false = ground arith in (none, rw outside)
scan_codes_total (suc fuel) otp_hash codes index h = elim (Bool-cases (ltb index (length codes))) [
  | inl inside ↦ elim (Bool-cases (otp_hash == slice index (index + 16) codes)) [
    | inl same ↦ (some (take index codes ++ drop (index + 16) codes), rw inside (rw same))
    | inr other ↦
        let (found, e) = scan_codes_total fuel otp_hash codes (index + 16) (omega arith) in
        (found, rw inside (rw other e))
  ]
  | inr outside ↦ (none, rw outside)
]

-- the bytes of a list of codes
abbrev pub joined : List Bytes → Bytes
joined [] = []
joined (code ∷ codes) = code ++ joined codes

abbrev pub IsHash : Bytes → Type 0
IsHash code = length code ≡ 16

-- the abstract view: a code is found in the list, and is gone from the rest
abbrev pub keep : Bytes → Option (List Bytes) → Option (List Bytes)
keep code none = none
keep code (some rest) = some (code ∷ rest)

unfoldable pub redeem : Bytes → List Bytes → Option (List Bytes)
redeem otp_hash [] = none
redeem otp_hash (code ∷ codes) =
    let rest = redeem otp_hash codes in if otp_hash == code then some codes else keep code rest

abbrev pub bytes_of : Option (List Bytes) → Option Bytes
bytes_of none = none
bytes_of (some codes) = some (joined codes)

-- what is found behind a prefix
abbrev behind : Bytes → Option (List Bytes) → Option Bytes
behind front none = none
behind front (some codes) = some (front ++ joined codes)

module _ (front code rest : Bytes) (full : length code ≡ 16) where
  slice_code : slice (length front) (length front + 16) (front ++ (code ++ rest)) ≡ code
  slice_code =
      let n : (length front + 16) - length front ≡ length code = omega (arith, full) in
      rw (n, drop-append front (code ++ rest)) (take-append code rest)

  drop_code : drop (length front + 16) (front ++ (code ++ rest)) ≡ rest
  drop_code =
      let n : length front + 16 ≡ length (front ++ code) =
        omega (arith, full, length-append front code) in
      rw (n, ← append_assoc front code rest) (drop-append (front ++ code) rest)

  inside_code : ltb (length front) (length (front ++ (code ++ rest))) ≡ true
  inside_code =
      lt→ltb _ _ (omega (arith, full, length-append front (code ++ rest), length-append code rest))

behind-keep :
    (front code : Bytes) (found : Option (List Bytes))
    → behind (front ++ code) found ≡ behind front (keep code found)
behind-keep front code none = refl
behind-keep front code (some codes) = ap some (append_assoc front code (joined codes))

scan_codes-redeem :
    (fuel : ℕ) (otp_hash front : Bytes) (codes : List Bytes)
    → All IsHash codes
    → length codes < fuel
    → scan_codes fuel otp_hash (front ++ joined codes) (length front)
      ≡ some (behind front (redeem otp_hash codes))
unfolding scan_codes redeem
scan_codes-redeem zero otp_hash front codes full h = absurd (omega arith)
scan_codes-redeem (suc fuel) otp_hash front [] full h =
    let outside : ltb (length front) (length front) ≡ false = ground arith in
    rw (append_nil front) (rw outside)
scan_codes-redeem (suc fuel) otp_hash front (code ∷ codes) (first, full) h =
    rw (inside_code front code (joined codes) first) (
      rw (slice_code front code (joined codes) first) (elim (Bool-cases (otp_hash == code)) [
        | inl same ↦ rw (
          same,
          take-append front (code ++ joined codes),
          drop_code front code (joined codes) first,
        )
        | inr other ↦
            let n : length front + 16 ≡ length (front ++ code) =
              omega (arith, first, length-append front code) in
            rw (other, n, ← append_assoc front code (joined codes))
              (scan_codes-redeem fuel otp_hash (front ++ code) codes full (omega arith)
                ∙ ap some (behind-keep front code (redeem otp_hash codes)))
      ]))

length-joined-le :
    (codes : List Bytes) → All IsHash codes → length codes < length (joined codes) + 1
length-joined-le [] full = omega arith
length-joined-le (code ∷ codes) (first, full) =
    omega (arith, first, length-append code (joined codes), length-joined-le codes full)

behind_nothing : (found : Option (List Bytes)) → behind [] found ≡ bytes_of found
behind_nothing none = refl
behind_nothing (some codes) = refl

-- On the bytes of a list of codes, 16 for each, the loop takes the first code that matches out of the
-- list, and finds nothing where no code matches.
pub snip-joined :
    (otp_hash : Bytes) (codes : List Bytes)
    → All IsHash codes
    → snip otp_hash (joined codes) ≡ bytes_of (redeem otp_hash codes)
unfolding snip
snip-joined otp_hash codes full =
    rw
      (scan_codes-redeem (length (joined codes) + 1) otp_hash [] codes full
        (length-joined-le codes full))
      (behind_nothing (redeem otp_hash codes))
