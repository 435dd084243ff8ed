-- ===== src/Python/Format.antt =====
-- str.format with keyword arguments, for replacement fields that are plain names. `none` is the
-- exception: a KeyError for an unknown name, an IndexError for `{}`, a ValueError for a lone brace.
use Prim.Native.String.{String}
use text.Mathlib.TextLemmas.{nil-append, cons-append, append-nil}
use apicrud.Prelude.{
  Bool, true, false, ◌&&◌, Option, none, some, List, [], ◌∷◌, ◌≡◌, refl, ap, subst, ◌∙◌, Char,
  if◌then◌else◌, arith, ◌==◌, text_eq, ◌⧺◌, inl, inr, Option-cases,
}
use apicrud.Python.Text.{same_char, free}

abbrev pub Env : Type 0
Env = List (String × String)

unfoldable pub lookup_field : String → Env → Option String
lookup_field k [] = none
lookup_field k ((j, v) ∷ env) = if j == k then some v else lookup_field k env

-- where the scan stands: in text, behind `{`, in a field's name, behind `}`
pub data Mode : Type 0 where
  in_plain opened closed : Mode
  in_field : String → Mode

-- what is written, before the rest
abbrev pub prepend : String → Option String → Option String
prepend s none = none
prepend s (some rest) = some (s ⧺ rest)

abbrev emit : Char → Option String → Option String
emit c none = none
emit c (some rest) = some (String.◌∷◌ c rest)

abbrev emit_field : Option String → Option String → Option String
emit_field none rest = none
emit_field (some v) rest = prepend v rest

scan : Env → Mode → String → Option String
scan env in_plain String.[] = some ""
scan env opened String.[] = none
scan env closed String.[] = none
scan env (in_field name) String.[] = none
scan env in_plain (String.◌∷◌ c s) =
    let at_open = scan env opened s in
    let at_close = scan env closed s in
    let rest = scan env in_plain s in
    if same_char c "{" then at_open else if same_char c "}" then at_close else emit c rest
scan env opened (String.◌∷◌ c s) =
    let escaped = scan env in_plain s in
    let name = scan env (in_field (String.◌∷◌ c "")) s in
    if same_char c "{" then emit c escaped else if same_char c "}" then none else name
scan env closed (String.◌∷◌ c s) =
    let escaped = scan env in_plain s in if same_char c "}" then emit c escaped else none
scan env (in_field name) (String.◌∷◌ c s) =
    let rest = scan env in_plain s in
    let longer = scan env (in_field (name ⧺ String.◌∷◌ c "")) s in
    if same_char c "}" then emit_field (lookup_field name env) rest else longer

-- text.format(**env)
unfoldable pub format : Env → String → Option String
unfolding scan lookup_field
format env s = scan env in_plain s

-- a text with neither brace
unfoldable pub no_braces : String → Bool
unfolding free
no_braces s = free "{" s && free "}" s

scan_plain :
    (env : Env) (c : Char) (s : String)
    → same_char c "{" ≡ false
    → same_char c "}" ≡ false
    → scan env in_plain (String.◌∷◌ c s) ≡ emit c (scan env in_plain s)
unfolding scan
scan_plain env c s h k = rw (h, k)

emit-prepend :
    (c : Char) (s : String) (o : Option String) → emit c (prepend s o) ≡ prepend (String.◌∷◌ c s) o
emit-prepend c s none = refl
emit-prepend c s (some t) = rw cons-append

scan-append :
    (env : Env) (s t : String)
    → free "{" s ≡ true
    → free "}" s ≡ true
    → scan env in_plain (s ⧺ t) ≡ prepend s (scan env in_plain t)
scan-append env String.[] t h k = elim (Option-cases (scan env in_plain t)) [
  | inl e ↦ rw (nil-append, e)
  | inr (u, e) ↦ rw (nil-append, e, nil-append)
]
scan-append env (String.◌∷◌ c s) t h k =
    let ih = scan-append env s t (unfold free in ground arith) (unfold free in ground arith) in
    rw cons-append (
      scan_plain env c (s ⧺ t) (unfold free in ground arith) (unfold free in ground arith)
      ∙ (ap (emit c) ih ∙ emit-prepend c s (scan env in_plain t)))

-- Text without braces is copied.
pub format-append :
    (env : Env) (s t : String) → no_braces s ≡ true → format env (s ⧺ t) ≡ prepend s (format env t)
unfolding format no_braces
format-append env s t h =
    scan-append env s t (unfold free in ground arith) (unfold free in ground arith)

pub format_plain : (env : Env) (s : String) → no_braces s ≡ true → format env s ≡ some s
format_plain env s h =
    subst (λ (t : String). format env t ≡ some t) (append-nil s)
      (format-append env s "" h ∙ unfold format in refl)
