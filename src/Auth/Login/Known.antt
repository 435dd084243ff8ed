-- ===== src/Auth/Login/Known.antt =====
-- apicrud/session_auth.py, SessionAuth.account_login: the loop over the items finds an account that the
-- provider of an item knows.
use apicrud.Prelude.{
  ℕ, Option, none, some, String, List, [], ◌∷◌, ◌≡◌, ◌⊎◌, inl, inr, subst, ap, ◌==◌, text_eq,
  option_eq, eq_iff, Bool-cases,
}
use apicrud.Python.Result.{Result, ok, err}
use apicrud.Auth.{Account}
use apicrud.Auth.Login.{
  Verdict, known, rejected, Providers, Tried, found, verdict_of, after_item, try_items,
}

-- the provider that an item of the loop names knows the account
abbrev pub KnownBy : {S : Type 0} → Providers S → Account → Option String → Type 0
KnownBy p account method =
    ((p.local ≡ ok (known account)) × (method ≡ some "local"))
    ⊎ ((p.ldap ≡ ok (known account)) × (method ≡ some "ldap"))

verdict-KnownBy :
    {S : Type 0} (p : Providers S) (item : String) (account : Account)
    → verdict_of p item ≡ some (ok (known account))
    → KnownBy p account (some item)
verdict-KnownBy p item account = elim (Bool-cases (item == "local")) [
  | inl local ↦ rw local (λ h. inl (cc, ap some ((eq_iff item "local").0 local)))
  | inr other ↦ elim (Bool-cases (item == "ldap")) [
    | inl ldap ↦ rw (other, ldap) (λ h. inr (cc, ap some ((eq_iff item "ldap").0 ldap)))
    | inr neither ↦ rw (other, neither) (λ h. absurd (cc))
  ]
]

after_item_cases :
    (i : String) (verdict : Option (Result Verdict)) (status : ℕ) (next : ℕ → Tried) (item : String)
    (account : Account)
    → after_item i verdict status next ≡ found item account
    → ((i ≡ item) × (verdict ≡ some (ok (known account))))
      ⊎ ((code : ℕ) × (next code ≡ found item account))
after_item_cases i none status next item account h = inr (status, h)
after_item_cases i (some (err e)) status next item account h = absurd (cc)
after_item_cases i (some (ok (rejected code))) status next item account h = inr (code, h)
after_item_cases i (some (ok (known other))) status next item account h = inl (cc, cc)

pub found-KnownBy :
    {S : Type 0} (p : Providers S) (items : List String) (status : ℕ) (item : String)
    (account : Account)
    → try_items p items status ≡ found item account
    → KnownBy p account (some item)
unfolding try_items
found-KnownBy p [] status item account h = absurd (cc)
found-KnownBy p (i ∷ items) status item account h =
    elim (after_item_cases i (verdict_of p i) status _ item account h) [
      | inl (same, by_item) ↦
          subst (λ (m : String). KnownBy p account (some m)) same
            (verdict-KnownBy p i account by_item)
      | inr (code, later) ↦ found-KnownBy p items code item account later
    ]
