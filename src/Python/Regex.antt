-- ===== src/Python/Regex.antt =====
-- re.match on the patterns of rbac.yaml: characters, `.` and `.*`. A `.` matches all but a newline.
use Prim.Native.String.{String}
use text.Mathlib.TextLemmas.{nil-append, cons-append}
use apicrud.Prelude.{
  Bool, true, false, ◌&&◌, ◌||◌, ◌⧺◌, ap, not, List, [], ◌∷◌, ◌≡◌, refl, Char, code, nat_eq,
  if◌then◌else◌, arith, Bool-cases, inl, inr, nat_eq_refl, ◌==◌, text_eq, eq_iff,
}
use apicrud.Python.Text.{same_char, same_char_eq, free}

-- what matches one character
pub data Symbol : Type 0 where
  any : Symbol
  lit : Char → Symbol

pub data Atom : Type 0 where
  one many : Symbol → Atom

unfoldable pub symbol : Char → Symbol
symbol c = if same_char c "." then any else lit c

unfoldable pub parse_re : String → List Atom
unfolding symbol
parse_re String.[] = []
parse_re (String.◌∷◌ c String.[]) = one (symbol c) ∷ []
parse_re (String.◌∷◌ c (String.◌∷◌ d s)) =
    let starred = parse_re s in
    let rest = parse_re (String.◌∷◌ d s) in
    if same_char d "*" then many (symbol c) ∷ starred else one (symbol c) ∷ rest

unfoldable pub accepts : Symbol → Char → Bool
accepts any c = not (nat_eq (code c) 10)
accepts (lit d) c = same_char d c

-- the whole text, with `whole`; otherwise a prefix of it
unfoldable pub matches : Bool → List Atom → String → Bool
unfolding accepts
matches true [] String.[] = true
matches true [] (String.◌∷◌ c s) = false
matches false [] s = true
matches whole (one a ∷ p) String.[] = false
matches whole (one a ∷ p) (String.◌∷◌ c s) = accepts a c && matches whole p s
matches whole (many a ∷ p) String.[] = matches whole p String.[]
matches whole (many a ∷ p) (String.◌∷◌ c s) =
    let skip = matches whole p (String.◌∷◌ c s) in
    let take_one = matches whole (many a ∷ p) s in if skip then true else accepts a c && take_one

-- the text without a newline at its end
abbrev pub chop : String → String
chop String.[] = ""
chop (String.◌∷◌ c String.[]) = if nat_eq (code c) 10 then "" else String.◌∷◌ c ""
chop (String.◌∷◌ c (String.◌∷◌ d s)) = String.◌∷◌ c (chop (String.◌∷◌ d s))

-- re.match('^' + pattern + '$', text): `$` matches at the end and before a newline there
unfoldable pub re_fullmatch : String → String → Bool
unfolding parse_re matches
re_fullmatch pattern s =
    matches true (parse_re pattern) s || matches true (parse_re pattern) (chop s)

-- re.match(pattern, text)
unfoldable pub re_match : String → String → Bool
unfolding parse_re matches
re_match pattern s = matches false (parse_re pattern) s

-- neither `.` nor `*`
unfoldable pub is_plain : String → Bool
unfolding free
is_plain s = free "." s && free "*" s

plain_symbol : (c : Char) → same_char c "." ≡ false → symbol c ≡ lit c
unfolding symbol
plain_symbol c h = rw h

-- the characters of a text, as a pattern
abbrev lits : String → List Atom
lits String.[] = []
lits (String.◌∷◌ c s) = one (lit c) ∷ lits s

parse_plain : (s : String) → free "." s ≡ true → free "*" s ≡ true → parse_re s ≡ lits s
unfolding parse_re
parse_plain String.[] h k = refl
parse_plain (String.◌∷◌ c String.[]) h k = rw (plain_symbol c (unfold free in ground arith))
parse_plain (String.◌∷◌ c (String.◌∷◌ d s)) h k =
    let ih =
      parse_plain (String.◌∷◌ d s) (unfold free in ground arith) (unfold free in ground arith) in
    let not_star : same_char d "*" ≡ false = unfold free in ground arith in
    rw not_star (rw (plain_symbol c (unfold free in ground arith), ih))

matches-lits_self : (s : String) → matches true (lits s) s ≡ true
unfolding matches
matches-lits_self String.[] = refl
matches-lits_self (String.◌∷◌ c s) = rw (nat_eq_refl (code c)) (matches-lits_self s)

matches-lits_eq : (p s : String) → matches true (lits p) s ≡ true → p ≡ s
unfolding matches
matches-lits_eq String.[] String.[] h = refl
matches-lits_eq String.[] (String.◌∷◌ d s) h = cc
matches-lits_eq (String.◌∷◌ c p) String.[] h = cc
matches-lits_eq (String.◌∷◌ c p) (String.◌∷◌ d s) h =
    let same : same_char c d ≡ true = ground arith in
    let rest : matches true (lits p) s ≡ true = ground arith in
    cc (same_char_eq c d same, matches-lits_eq p s rest)

pub chop-append :
    (a : String) (c : Char) (s : String) → chop (a ⧺ String.◌∷◌ c s) ≡ a ⧺ chop (String.◌∷◌ c s)
chop-append String.[] c s = rw (nil-append, nil-append) refl
chop-append (String.◌∷◌ d String.[]) c s =
    rw (cons-append, nil-append, cons-append, nil-append) refl
chop-append (String.◌∷◌ d (String.◌∷◌ e a)) c s =
    let rest = rw (cons-append, cons-append) at (chop-append (String.◌∷◌ e a) c s) in
    rw (cons-append, cons-append, cons-append, cons-append)
      (ap (λ (t : String). String.◌∷◌ d t) rest)

matches_plain : (p s : String) → is_plain p ≡ true → matches true (parse_re p) s ≡ (p == s)
unfolding is_plain
matches_plain p s h = rw (parse_plain p (ground arith) (ground arith)) (elim (Bool-cases (p == s)) [
  | inl same ↦ rw same (rw (← (eq_iff p s).0 same) (matches-lits_self p))
  | inr other ↦ elim (Bool-cases (matches true (lits p) s)) [
    | inl m ↦ ground (arith, eq_iff p s, matches-lits_eq p s m)
    | inr m ↦ rw (m, other)
  ]
])

-- A pattern without `.` and `*` matches itself and no other text that has no newline at its end.
pub re_fullmatch_plain :
    (p s : String) → is_plain p ≡ true → chop s ≡ s → re_fullmatch p s ≡ (p == s)
unfolding re_fullmatch
re_fullmatch_plain p s h line = rw (line, matches_plain p s h) (or_same (p == s))
  where
    or_same : (b : Bool) → (b || b) ≡ b
    or_same true = refl
    or_same false = refl

run :
    (re_fullmatch "contact:.*" "contact:None" ≡ true)
    × (re_fullmatch "contact:x" "contact:None" ≡ false)
    × (re_match "list-.*" "list-x-1-member" ≡ true)
unfolding re_fullmatch re_match
run = (refl, refl, refl)
