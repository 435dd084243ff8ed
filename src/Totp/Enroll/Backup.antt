-- ===== src/Totp/Enroll/Backup.antt =====
-- apicrud/auth/totp.py, AuthTOTP.register, with the loop of totp_func.py: the backup codes that a user
-- is given.
use apicrud.Prelude.{
  ℕ, Bool, true, false, not, ◌||◌, Option, none, some, String, List, [], ◌∷◌, ◌≡◌, refl, sym, ap,
  ◌∙◌, subst, length, ◌==◌, text_eq, option_eq, inl, inr, Bool-cases, if_cases, All, All-map,
}
use apicrud.Python.Result.{Result, ok, err, ◌>>=◌}
use apicrud.Python.Text.{truthy}
use apicrud.Redis.{Redis}
use apicrud.Database.{Session}
use apicrud.Access.{AccessControl}
use apicrud.Session.{Codec}
use apicrud.Aes.{Bytes, Cipher, encrypt_bin, decrypt_bin}
use apicrud.Aes.RoundTrip.{decrypt_bin-encrypt_bin}
use apicrud.Totp.{Guarded, Hashing, TotpConfig}
use apicrud.Totp.Codes.{bytes_eq, bytes_beq_iff}
use apicrud.Totp.Codes.Redeem.{IsHash, joined, bytes_of, redeem}
use apicrud.Totp.Login.{spend_code, snipped}
use apicrud.Totp.Login.Spent.{spend_code_lem}
use apicrud.Totp.Enroll.{
  Enrolled, registered, backup_codes, hashed, finish_register, enroll, register_account,
  with_secret, register,
}

module _ (h : Hashing) (whole : (code : String) → length (h.md5 code) ≡ 16) where
  hashed-IsHash : (codes : List String) → All IsHash (hashed h codes)
  unfolding hashed
  hashed-IsHash [] = tt
  hashed-IsHash (code ∷ codes) = (whole code, hashed-IsHash codes)

  abbrev IsRedeemed : List Bytes → String → Type 0
  IsRedeemed hashes code = (rest : List Bytes) × (redeem (h.md5 code) hashes ≡ some rest)

  redeem_later :
      (first : Bytes) (hashes : List Bytes) (code : String)
      → IsRedeemed hashes code
      → IsRedeemed (first ∷ hashes) code
  unfolding redeem
  redeem_later first hashes code (rest, e) = elim (Bool-cases (h.md5 code == first)) [
    | inl same ↦ (hashes, rw same)
    | inr other ↦ (first ∷ rest, rw (other, e))
  ]

  hashed-IsRedeemed : (codes : List String) → All (IsRedeemed (hashed h codes)) codes
  unfolding hashed
  hashed-IsRedeemed [] = tt
  hashed-IsRedeemed (code ∷ codes) = (
    (hashed h codes, unfold redeem in rw ((bytes_beq_iff (h.md5 code) (h.md5 code)).1 refl)),
    All-map _ _ codes (redeem_later (h.md5 code) (hashed h codes)) (hashed-IsRedeemed codes),
  )

  -- the loop of a login finds the code in the account
  abbrev pub IsAccepted : Cipher → Guarded → String → Type 0
  IsAccepted cipher g code =
      (left : Guarded) × (spend_code cipher h code g g.backup_codes ≡ ok (some left))

  module _ (cipher : Cipher) (config : TotpConfig) (draw : ℕ → String) (count : ℕ) (iv : Bytes)
      (full : length iv ≡ 16) where
    codes-IsAccepted :
        (g : Guarded) (enc : Bytes) (codes : List String)
        → encrypt_bin cipher iv (joined (hashed h codes)) ≡ ok enc
        → g.backup_codes ≡ some enc
        → All (IsAccepted cipher g) codes
    codes-IsAccepted g enc codes sealed stored = All-map _ _ codes accept (hashed-IsRedeemed codes)
      where
        plain : decrypt_bin cipher enc ≡ ok (joined (hashed h codes))
        plain =
            ap (λ (made : Result Bytes). made >>= decrypt_bin cipher) (sym sealed)
            ∙ decrypt_bin-encrypt_bin cipher iv full (joined (hashed h codes))

        accept : (code : String) → IsRedeemed (hashed h codes) code → IsAccepted cipher g code
        accept code (rest, e) = (
          record g { backup_codes = some (joined rest) },
          spend_code_lem cipher h code g g.backup_codes enc (hashed h codes) stored plain
                (hashed-IsHash codes)
              ∙ unfold snipped in
                ap (λ (left : Option (List Bytes)). ok (snipped g (bytes_of left))) e,
        )

    -- an account that has been registered with these codes
    abbrev Keeps : List String → Session (Option Guarded) × Result Enrolled → Type 0
    Keeps codes ended =
        (given : List String) (header : String)
        → ended.1 ≡ ok (registered given header)
        → (g : Guarded) × (ended.0.saved ≡ some g)
          × (given ≡ codes)
          × All (IsAccepted cipher g) given

    finish-Keeps :
        (fits : Bool) (codes : List String) (g : Guarded) (s : Session (Option Guarded))
        → All (IsAccepted cipher g) codes
        → Keeps codes (finish_register cipher h config fits codes g s)
    unfolding finish_register
    finish-Keeps true codes g s good given header done =
        let e : codes ≡ given = cc done in
        (g, refl, sym e, subst (λ (l : List String). All (IsAccepted cipher g) l) e good)
    finish-Keeps false codes g s good given header done = absurd (cc)

    enroll-Keeps :
        (fits : Bool) (secret : String) (codes : List String) (g : Guarded) (made : Result Bytes)
        (s : Session (Option Guarded))
        → encrypt_bin cipher iv (joined (hashed h codes)) ≡ made
        → Keeps codes (enroll cipher h config fits secret codes g made s)
    unfolding enroll
    enroll-Keeps fits secret codes g (err e) s sealed = λ given header done. absurd (cc)
    enroll-Keeps fits secret codes g (ok enc) s sealed =
        finish-Keeps fits codes _ s (codes-IsAccepted _ enc codes sealed refl)

    register_account-Keeps :
        (current : String → String) (fits : Bool) (secret : String) (otp_first : Option String)
        (found : Option Guarded) (s : Session (Option Guarded))
        → Keeps
            (backup_codes draw 0 count)
            (register_account cipher h config current draw count iv fits secret otp_first found s)
    unfolding register_account
    register_account-Keeps current fits secret otp_first none s = λ given header done. absurd (cc)
    register_account-Keeps current fits secret otp_first (some g) s =
        if_cases (Keeps (backup_codes draw 0 count))
          (truthy g.totp_secret || not (otp_first == some (current secret))) _ _
          (λ refused given header done. absurd (cc))
          (λ right. enroll-Keeps fits secret (backup_codes draw 0 count) g _ s refl)

    with_secret-Keeps :
        (next : String → Session (Option Guarded) → Session (Option Guarded) × Result Enrolled)
        (found : Result (Option String)) (s : Session (Option Guarded))
        → ((secret : String) → Keeps (backup_codes draw 0 count) (next secret s))
        → Keeps (backup_codes draw 0 count) (with_secret cipher h config next found s)
    unfolding with_secret
    with_secret-Keeps next (err e) s each = λ given header done. absurd (cc)
    with_secret-Keeps next (ok none) s each = λ given header done. absurd (cc)
    with_secret-Keeps next (ok (some secret)) s each =
        if_cases (Keeps (backup_codes draw 0 count)) (secret == "") _ _
          (λ empty given header done. absurd (cc)) (λ has. each secret)

    -- When a second factor is registered, the codes that the user is given are those that were drawn,
    -- and the account that is committed holds them so that a login with any one of them finds it.
    pub register-IsAccepted :
        {B : Type 0} (r : Redis B) (codec : Codec B) (up : Bool) (acc : AccessControl)
        (nonce : String) (otp_first : Option String) (current : String → String) (fits : Bool)
        (redis : r.State) (s : Session (Option Guarded)) (given : List String) (header : String)
        → (register cipher h config r codec up acc nonce otp_first current draw count iv fits redis
            s).1
          ≡ ok (registered given header)
        → (g : Guarded) × ((register cipher h config r codec up acc nonce otp_first current draw
              count iv fits redis s).0.saved
            ≡ some g)
          × (given ≡ backup_codes draw 0 count)
          × All (IsAccepted cipher g) given
    unfolding register
    register-IsAccepted r codec up acc nonce otp_first current fits redis s =
        with_secret-Keeps _ _ s
          (λ secret. register_account-Keeps current fits secret otp_first s.now s)
