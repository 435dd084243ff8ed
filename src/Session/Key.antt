-- ===== src/Session/Key.antt =====
-- The redis keys of sessions.
use Prim.Native.String.{String}
use text.Mathlib.TextLemmas.{append_cancel_left, cons-append, nil-append}
use apicrud.Prelude.{true, Option, List, [], ◌∷◌, ◌≡◌, ◌⧺◌, ◌∙◌, ap, sym, if◌then◌else◌}
use apicrud.Python.Text.{show, truthy, free, split, split-append_left, last_chars}
use apicrud.Session.{session_key}

-- `key_id or uid`, as the key shows it
abbrev pub key_owner : Option String → Option String → String
key_owner uid key_id = show (if truthy key_id then key_id else uid)

abbrev head_or_empty : List String → String
head_or_empty [] = ""
head_or_empty (x ∷ xs) = x

pub colon_append : (t : String) → ":" ⧺ t ≡ String.◌∷◌ ":" t
colon_append t = cons-append ":" "" t ∙ ap (λ (u : String). String.◌∷◌ ":" u) (nil-append t)

owner_of : (o t : String) → free ":" o ≡ true → head_or_empty (split ":" (o ⧺ (":" ⧺ t))) ≡ o
owner_of o t h = rw (colon_append t) (rw (split-append_left ":" o t h))

-- Two sessions have one key only if they have one owner and one ending of the token, where no
-- owner's name contains a colon.
pub session_key_injective :
    (uid uid' key_id key_id' : Option String) (token token' : String)
    → free ":" (key_owner uid key_id) ≡ true
    → free ":" (key_owner uid' key_id') ≡ true
    → session_key uid token key_id ≡ session_key uid' token' key_id'
    → (key_owner uid key_id ≡ key_owner uid' key_id') × (last_chars 3 token ≡ last_chars 3 token')
unfolding session_key
session_key_injective uid uid' key_id key_id' token token' h h' e =
    let rest = append_cancel_left "ses:" _ _ e in
    let owners : key_owner uid key_id ≡ key_owner uid' key_id' =
      sym (owner_of (key_owner uid key_id) (last_chars 3 token) h)
      ∙ ap (λ (t : String). head_or_empty (split ":" t)) rest
      ∙ owner_of (key_owner uid' key_id') (last_chars 3 token') h' in
    (
      owners,
      append_cancel_left ":" _ _ (
          append_cancel_left (key_owner uid' key_id') _ _
            (ap (λ (o : String). o ⧺ (":" ⧺ last_chars 3 token)) (sym owners) ∙ rest)),
    )
