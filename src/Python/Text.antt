-- ===== src/Python/Text.antt =====
-- str: truth value, `%s` of None, `in`, split, join and replace.
use Prim.Native.String.{String, count}
use text.Mathlib.Text.{starts_with}
use text.Mathlib.TextEquality.{Char-path}
use text.Mathlib.TextLemmas.{nil-append, cons-append, append_cancel_left, head-eq_of_cons-eq}
use apicrud.Prelude.{
  ℕ, Bool, true, false, ◌||◌, ◌&&◌, not, Option, none, some, List, [], ◌∷◌, ◌++◌, ◌≡◌, refl, ap,
  sym, ◌∙◌, Char, code, nat_eq, Bool-cases, inl, inr, nat_eq_refl, leb, eq_iff, eq_refl,
  if◌then◌else◌, arith, ◌==◌, text_eq, ◌⧺◌,
}

-- `%s` of a value that may be None
unfoldable pub show : Option String → String
show none = "None"
show (some s) = s

-- the truth value of a string or None
unfoldable pub truthy : Option String → Bool
truthy none = false
truthy (some s) = not (s == "")

-- `part in text`
unfoldable pub in_text : String → String → Bool
in_text part String.[] = part == ""
in_text part (String.◌∷◌ c s) = starts_with (String.◌∷◌ c s) part || in_text part s

-- the first part of a split takes one more character
unfoldable pub glue : Char → List String → List String
glue c [] = String.◌∷◌ c "" ∷ []
glue c (x ∷ xs) = String.◌∷◌ c x ∷ xs

-- c == d, for characters
abbrev pub same_char : Char → Char → Bool
same_char c d = nat_eq (code c) (code d)

pub same_char_eq : (c d : Char) → same_char c d ≡ true → c ≡ d
same_char_eq c d h = Char-path c d (ground arith)

-- text.split(sep), for a separator of one character
unfoldable pub split : Char → String → List String
unfolding glue
split d String.[] = "" ∷ []
split d (String.◌∷◌ c s) = let rest = split d s in if same_char c d then "" ∷ rest else glue c rest

-- sep.join(parts)
unfoldable pub join : String → List String → String
join sep [] = ""
join sep (x ∷ []) = x
join sep (x ∷ y ∷ ys) = x ⧺ (sep ⧺ join sep (y ∷ ys))

-- no character of the text is `d`
unfoldable pub free : Char → String → Bool
free d String.[] = true
free d (String.◌∷◌ c s) = not (same_char c d) && free d s

-- text.replace(old, new), for an `old` of one character
unfoldable pub replace : Char → String → String → String
replace d new String.[] = ""
replace d new (String.◌∷◌ c s) =
    let rest = replace d new s in if same_char c d then new ⧺ rest else String.◌∷◌ c rest

glue-append :
    (c : Char) (xs ys : List String) (x : String) → glue c ((x ∷ xs) ++ ys) ≡ glue c (x ∷ xs) ++ ys
unfolding glue
glue-append c xs ys x = refl

-- A split always has a first part.
pub split-cons : (d : Char) (s : String) → (x : String) × (xs : List String) × (split d s ≡ x ∷ xs)
unfolding split
split-cons d String.[] = ("", [], refl)
split-cons d (String.◌∷◌ c s) = elim (Bool-cases (same_char c d)) [
  | inl e ↦ ("", split d s, rw e)
  | inr e ↦ let (x, xs, h) = split-cons d s in (String.◌∷◌ c x, xs, rw (e, h))
]

-- Splitting at the first separator.
pub split-append_left :
    (d : Char) (a s : String) → free d a ≡ true → split d (a ⧺ String.◌∷◌ d s) ≡ a ∷ split d s
unfolding split free
split-append_left d String.[] s h = rw nil-append (rw (nat_eq_refl (code d)))
split-append_left d (String.◌∷◌ c a) s h = elim (Bool-cases (same_char c d)) [
  | inl e ↦ cc (h, ap not e)
  | inr e ↦ rw cons-append (rw e (rw (split-append_left d a s (ground arith))))
]

-- A text without the separator is one part.
pub split-free : (d : Char) (s : String) → free d s ≡ true → split d s ≡ s ∷ []
unfolding split free
split-free d String.[] h = refl
split-free d (String.◌∷◌ c s) h = elim (Bool-cases (same_char c d)) [
  | inl e ↦ cc (h, ap not e)
  | inr e ↦ rw e (rw (split-free d s (ground arith)))
]

-- Splitting at the last separator.
pub split-append_right :
    (d : Char) (s b : String) → free d b ≡ true → split d (s ⧺ String.◌∷◌ d b) ≡ split d s ++ b ∷ []
unfolding split
split-append_right d String.[] b h =
    rw nil-append (rw (nat_eq_refl (code d)) (rw (split-free d b h)))
split-append_right d (String.◌∷◌ c s) b h =
    let ih = split-append_right d s b h in
    elim (Bool-cases (same_char c d)) [
      | inl e ↦ rw cons-append (rw e (rw ih))
      | inr e ↦
          let (x, xs, eq) = split-cons d s in
          rw cons-append (rw e (rw ih (rw eq (glue-append c xs (b ∷ []) x))))
    ]

join-glue :
    (c : Char) (sep x : String) (xs : List String)
    → join sep (glue c (x ∷ xs)) ≡ String.◌∷◌ c (join sep (x ∷ xs))
unfolding join glue
join-glue c sep x [] = refl
join-glue c sep x (y ∷ ys) = rw cons-append

join-nil_cons :
    (sep x : String) (xs : List String) → join sep ("" ∷ x ∷ xs) ≡ sep ⧺ join sep (x ∷ xs)
unfolding join
join-nil_cons sep x xs = rw nil-append

-- Joining what a split took apart.
pub join-split : (d : Char) (s : String) → join (String.◌∷◌ d "") (split d s) ≡ s
unfolding split
join-split d String.[] = unfold join in refl
join-split d (String.◌∷◌ c s) =
    let ih = join-split d s in
    let (x, xs, eq) = split-cons d s in
    elim (Bool-cases (same_char c d)) [
      | inl e ↦
          rw (e, eq)
            (rw (join-nil_cons (String.◌∷◌ d "") x xs, ← eq, ih, same_char_eq c d e)
              (cons-append d "" s ∙ rw nil-append))
      | inr e ↦ rw (e, eq) (rw (join-glue c (String.◌∷◌ d "") x xs, ← eq, ih))
    ]

-- list(text)
unfoldable pub to_list : String → List Char
to_list String.[] = []
to_list (String.◌∷◌ c s) = c ∷ to_list s

pub free-append : (d : Char) (s t : String) → free d (s ⧺ t) ≡ (free d s && free d t)
unfolding free
free-append d String.[] t = rw nil-append
free-append d (String.◌∷◌ c s) t = rw cons-append (ground (arith, free-append d s t))

-- A part of the end is a part of the whole.
pub in_text-append : (part s t : String) → in_text part t ≡ true → in_text part (s ⧺ t) ≡ true
unfolding in_text
in_text-append part String.[] t h = rw nil-append h
in_text-append part (String.◌∷◌ c s) t h =
    rw cons-append (ground (arith, in_text-append part s t h))

-- A common beginning makes no difference to a comparison.
pub append-beq : (p a b : String) → ((p ⧺ a) == (p ⧺ b)) ≡ (a == b)
append-beq p a b = elim (Bool-cases (a == b)) [
  | inl same ↦ rw ((eq_iff a b).0 same) (eq_refl (p ⧺ b) ∙ sym (eq_refl b))
  | inr other ↦ elim (Bool-cases ((p ⧺ a) == (p ⧺ b))) [
    | inl same ↦
        let e : a ≡ b = append_cancel_left p a b ((eq_iff (p ⧺ a) (p ⧺ b)).0 same) in
        cc ((eq_iff a b).1 e)
    | inr differs ↦ rw (differs, other)
  ]
]

-- text[-n:]
unfoldable pub last_chars : ℕ → String → String
last_chars n String.[] = ""
last_chars n (String.◌∷◌ c s) =
    let rest = last_chars n s in if leb n (count s) then rest else String.◌∷◌ c s

-- Texts that start differently are different.
pub beq_other_start :
    (c d : Char) (s t : String) → same_char c d ≡ false → (String.◌∷◌ c s == String.◌∷◌ d t) ≡ false
beq_other_start c d s t differs = elim (Bool-cases (String.◌∷◌ c s == String.◌∷◌ d t)) [
  | inl same ↦
      let e : c ≡ d = head-eq_of_cons-eq ((eq_iff _ _).0 same) in
      cc (differs, nat_eq_refl (code d), e)
  | inr other ↦ other
]
