-- ===== src/Totp/Codes.antt =====
-- apicrud/auth/totp_func.py: the loop of `login` over the backup codes. They are stored as one run of
-- bytes, 16 for each code.
pub mod Redeem
use apicrud.Prelude.{
  ℕ, zero, suc, ◌+◌, ◌-◌, Bool, true, false, ◌&&◌, Option, none, some, List, [], ◌∷◌, ◌++◌, ◌≡◌,
  ◌↔◌, refl, ap, arith, length, take, drop, ltb, if◌then◌else◌, ◌==◌, Eq, number_eq, nat_eq_iff,
}
use apicrud.Aes.{Bytes}

abbrev pub bytes_beq : Bytes → Bytes → Bool
bytes_beq [] [] = true
bytes_beq [] (c ∷ t) = false
bytes_beq (b ∷ s) [] = false
bytes_beq (b ∷ s) (c ∷ t) = b == c && bytes_beq s t

pub bytes_beq_iff : (s t : Bytes) → (bytes_beq s t ≡ true) ↔ (s ≡ t)
bytes_beq_iff [] [] = (λ h. refl, λ e. refl)
bytes_beq_iff [] (c ∷ t) = (λ h. cc, λ e. cc)
bytes_beq_iff (b ∷ s) [] = (λ h. cc, λ e. cc)
bytes_beq_iff (b ∷ s) (c ∷ t) = (
  λ h. ground (arith, nat_eq_iff b c, (bytes_beq_iff s t).0),
  λ e. ground (arith, nat_eq_iff b c, (bytes_beq_iff s t).1),
)

instance abbrev pub bytes_eq : Eq Bytes
bytes_eq = record { test = bytes_beq; test_iff = bytes_beq_iff }

-- codes[i:j]
abbrev pub slice : ℕ → ℕ → Bytes → Bytes
slice i j codes = take (j - i) (drop i codes)

-- `while index < len(codes)`, on fuel: what is left without the matching code, if there is one. An
-- outer `none` says that the fuel ran out.
unfoldable pub scan_codes : ℕ → Bytes → Bytes → ℕ → Option (Option Bytes)
scan_codes zero otp_hash codes index = none
scan_codes (suc fuel) otp_hash codes index =
    let next = scan_codes fuel otp_hash codes (index + 16) in
    if ltb index (length codes)
    then (if otp_hash == slice index (index + 16) codes
        then some (some (take index codes ++ drop (index + 16) codes))
        else next)
    else some none

abbrev no_match : Option (Option Bytes) → Option Bytes
no_match none = none
no_match (some found) = found

unfoldable pub snip : Bytes → Bytes → Option Bytes
unfolding scan_codes
snip otp_hash codes = no_match (scan_codes (length codes + 1) otp_hash codes 0)
