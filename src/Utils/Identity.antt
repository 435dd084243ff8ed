-- ===== src/Utils/Identity.antt =====
-- apicrud/utils.py: identity_normalize on the addresses of one provider.
use Prim.Native.String.{String}
use text.Mathlib.TextLemmas.{nil-append, cons-append, nil≢cons}
use apicrud.Prelude.{
  Bool, true, false, not, ◌&&◌, some, ◌⧺◌, ◌≡◌, refl, sym, arith, inl, inr, Char, code, ◌==◌,
  number_eq, text_eq, eq_iff, Bool-cases,
}
use apicrud.Python.Scan.{lower, one_of, any_char}
use apicrud.Python.PySet.{contains}
use apicrud.Python.Text.{split, replace, free, to_list, same_char, split-append_left, split-free}
use apicrud.Utils.{
  lower_text, at_gmail, is_gmail, first_of, without_dots, joined_lower, untagged,
  identity_normalize,
}

-- no character is a newline
abbrev pub no_newline : String → Bool
no_newline String.[] = true
no_newline (String.◌∷◌ c s) = not (code c == 10) && no_newline s

is_gmail-append : (u : String) → no_newline u ≡ true → is_gmail (to_list (u ⧺ "@gmail.com")) ≡ true
unfolding is_gmail to_list
is_gmail-append String.[] h = unfold at_gmail one_of any_char lower contains in refl
is_gmail-append (String.◌∷◌ c u) h = rw cons-append (ground (arith, is_gmail-append u))

free-replace : (d e : Char) (s : String) → free d s ≡ true → free d (replace e "" s) ≡ true
unfolding free replace
free-replace d e String.[] h = refl
free-replace d e (String.◌∷◌ c s) h = elim (Bool-cases (same_char c e)) [
  | inl same ↦ rw same (rw nil-append (free-replace d e s (ground arith)))
  | inr other ↦ rw other (ground (arith, free-replace d e s))
]

append-nonempty : (u : String) → (u ⧺ "@gmail.com" == "") ≡ false
append-nonempty String.[] = refl
append-nonempty (String.◌∷◌ c u) =
    rw cons-append (elim (Bool-cases (String.◌∷◌ c (u ⧺ "@gmail.com") == "")) [
      | inl same ↦ absurd (nil≢cons (sym ((eq_iff _ _).0 same)))
      | inr other ↦ other
    ])

-- Whatever its dots, its tag behind a plus sign and its case, an address of this provider has the
-- identity of the part of its name before the first plus sign, without the dots and in lower case.
pub gmail_identity :
    (user : String)
    → free "@" user ≡ true
    → no_newline user ≡ true
    → identity_normalize (user ⧺ "@gmail.com")
      ≡ some (lower_text (first_of (split "+" (replace "." "" user)) ⧺ ("@" ⧺ "gmail.com")))
unfolding identity_normalize untagged without_dots joined_lower
gmail_identity user at line = rw (append-nonempty user) (
    rw (is_gmail-append user line) (
      rw (split-append_left "@" user "gmail.com" at) (
        rw (
          split-append_left "@" (replace "." "" user) "gmail.com" (free-replace "@" "." user at),
          split-free "@" "gmail.com" (unfold free in refl),
        ))))
