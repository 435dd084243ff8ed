-- ===== src/Utils/Ids.antt =====
-- apicrud/utils.py: gen_id, and its function _int2base.
use native.Mathlib.Nat.{mod-lt, div-lt_iff_lt-mul}
use apicrud.Prelude.{
  ℕ, zero, suc, ◌+◌, ◌-◌, ◌*◌, ◌/◌, ◌%◌, ◌≤◌, ◌<◌, Bool, true, false, ◌&&◌, ◌||◌, Option, none,
  some, List, [], ◌∷◌, ◌++◌, ◌≡◌, ◌≢◌, inl, inr, refl, sym, ap, ◌∙◌, arith, Char, code, ltb, length,
  ◌==◌, number_eq, Bool-cases, ltb→lt,
}
use apicrud.Python.Text.{same_char, to_list}
use apicrud.Utils.{char_of, lstrip_char, int2base, alphabet, with_choices, gen_id}

char_of_lt :
    (chars : List Char) (i : ℕ) → i < length chars → (c : Char) × (char_of chars i ≡ some c)
char_of_lt [] i h = absurd (omega arith)
char_of_lt (c ∷ chars) zero h = (c, refl)
char_of_lt (c ∷ chars) (suc i) h = char_of_lt chars i (omega arith)

halves : (x n fuel : ℕ) → x ≢ 0 → 1 < n → x < suc fuel → x / n < fuel
halves x n fuel positive wide h =
    (div-lt_iff_lt-mul {k = n} {x = x} {y = fuel} (omega arith)).1 (grind arith)

-- The digits of a number come to an end, in any base above one, within as many rounds as the number is
-- large, and one more.
pub int2base_total :
    (fuel : ℕ) (chars : List Char) (first : Char) (x : ℕ)
    → 1 < length chars
    → x < fuel
    → (s : List Char) × (int2base fuel chars first x ≡ some s)
unfolding int2base
int2base_total zero chars first x wide h = absurd (omega arith)
int2base_total (suc fuel) chars first x wide h = elim (Bool-cases (x == 0)) [
  | inl done ↦ (first ∷ [], rw done)
  | inr more ↦
      let (rest, e) =
        int2base_total fuel chars first (x / length chars) wide
          (halves x (length chars) fuel (ground arith) wide h) in
      let (digit, d) = char_of_lt chars (x % length chars) (mod-lt x (omega arith)) in
      (lstrip_char first rest ++ digit ∷ [], rw more (rw (e, d)))
]

abbrev or_first : Option Char → Char
or_first none = "-"
or_first (some c) = c

digit : ℕ → Char
digit i = or_first (char_of alphabet i)

alphabet-length : length alphabet ≡ 64
unfolding to_list
alphabet-length = refl

char_of-digit : (i : ℕ) → i < 64 → char_of alphabet i ≡ some (digit i)
unfolding digit
char_of-digit i h = let (c, e) = char_of_lt alphabet i (omega (arith, alphabet-length)) in rw e

all_below : ℕ → (ℕ → Bool) → Bool
all_below zero holds = true
all_below (suc n) holds = holds n && all_below n holds

all_below_sound :
    (n : ℕ) (holds : ℕ → Bool) (i : ℕ) → all_below n holds ≡ true → i < n → holds i ≡ true
unfolding all_below
all_below_sound zero holds i h lt = absurd (omega arith)
all_below_sound (suc n) holds i h lt = ground (arith, all_below_sound n holds i)

-- the characters stand in the order of their codes
ascending : all_below 63 (λ i. ltb (code (digit i)) (code (digit (i + 1)))) ≡ true
unfolding all_below digit to_list
ascending = refl

digit_next : (i : ℕ) → i < 63 → code (digit i) < code (digit (i + 1))
digit_next i h =
    let e : ltb (code (digit i)) (code (digit (i + 1))) ≡ true =
      all_below_sound 63 (λ i. ltb (code (digit i)) (code (digit (i + 1)))) i ascending h in
    ground arith

digit_mono : (k i : ℕ) → i + k < 63 → code (digit i) < code (digit (i + k + 1))
digit_mono zero i h = let e : i + 0 + 1 ≡ i + 1 = omega arith in rw e (digit_next i (omega arith))
digit_mono (suc k) i h =
    let e : i + suc k + 1 ≡ i + k + 1 + 1 = omega arith in
    rw e (omega (arith, digit_mono k i (omega arith), digit_next (i + k + 1) (omega arith)))

digit-lt : (i j : ℕ) → i < j → j < 64 → code (digit i) < code (digit j)
digit-lt i j h k =
    let e : j ≡ i + (j - i - 1) + 1 = omega arith in rw e (digit_mono (j - i - 1) i (omega arith))

digit_zero : code (digit 0) ≡ 45
unfolding digit to_list
digit_zero = refl

digit_not_first : (i : ℕ) → 0 < i → i < 64 → same_char (digit i) "-" ≡ false
digit_not_first i h k = ground (arith, digit-lt 0 i h k, digit_zero)

int2base_step :
    (fuel x : ℕ) (s : List Char)
    → x ≢ 0
    → int2base fuel alphabet "-" (x / 64) ≡ some s
    → int2base (suc fuel) alphabet "-" x ≡ some (lstrip_char "-" s ++ digit (x % 64) ∷ [])
unfolding int2base
int2base_step fuel x s positive e =
    let more : (x == 0) ≡ false = ground arith in
    rw (alphabet-length, more) (rw (e, char_of-digit (x % 64) (omega arith)))

lstrip_digit :
    (i : ℕ) (s : List Char) → 0 < i → i < 64 → lstrip_char "-" (digit i ∷ s) ≡ digit i ∷ s
unfolding lstrip_char
lstrip_digit i s h k = rw (digit_not_first i h k)

int2base_zero : (fuel : ℕ) → int2base (suc fuel) alphabet "-" 0 ≡ some ("-" ∷ [])
unfolding int2base
int2base_zero fuel = refl

one_digit :
    (fuel a : ℕ) → 0 < a → a < 64 → int2base (suc (suc fuel)) alphabet "-" a ≡ some (digit a ∷ [])
one_digit fuel a h k =
    let none_left : a / 64 ≡ 0 = omega arith in
    let same : a % 64 ≡ a = omega arith in
    int2base_step (suc fuel) a ("-" ∷ []) (ground arith) (rw none_left (int2base_zero fuel))
    ∙ rw same (unfold lstrip_char in refl)

two_digits :
    (fuel b : ℕ)
    → 64 ≤ b
    → b < 4096
    → int2base (suc (suc (suc fuel))) alphabet "-" b ≡ some (digit (b / 64) ∷ digit (b % 64) ∷ [])
two_digits fuel b h k =
    int2base_step (suc (suc fuel)) b _ (ground arith)
      (one_digit fuel (b / 64) (omega arith) (omega arith))
    ∙ rw (lstrip_digit (b / 64) [] (omega arith) (omega arith))

three_digits :
    (fuel x : ℕ)
    → 4096 ≤ x
    → x < 262144
    → int2base (suc (suc (suc (suc fuel)))) alphabet "-" x
      ≡ some (digit (x / 4096) ∷ digit (x / 64 % 64) ∷ digit (x % 64) ∷ [])
three_digits fuel x low high =
    let e : x / 64 / 64 ≡ x / 4096 = omega arith in
    int2base_step (suc (suc (suc fuel))) x _ (ground arith)
      (two_digits fuel (x / 64) (omega arith) (omega arith))
    ∙ rw (lstrip_digit (x / 64 / 64) (digit (x / 64 % 64) ∷ []) (omega arith) (omega arith), e)

gen_id_digits :
    (days random : ℕ) (choices : List Char)
    → 4096 ≤ days * 8 + random
    → days * 8 + random < 262144
    → gen_id days random choices
      ≡ some (
          digit ((days * 8 + random) / 4096)
          ∷ digit ((days * 8 + random) / 64 % 64)
          ∷ digit ((days * 8 + random) % 64)
          ∷ choices)
unfolding gen_id
gen_id_digits days random choices low high =
    let x = days * 8 + random in
    let e : x + 1 ≡ suc (suc (suc (suc (x - 3)))) = omega arith in
    ap (λ (s : Option (List Char)). with_choices s choices)
      (ap (λ (fuel : ℕ). int2base fuel alphabet "-" x) e ∙ three_digits (x - 3) x low high)

some_injective : {s t : List Char} → some s ≡ some t → s ≡ t
some_injective e = cc e

-- What stands behind the prefix of an id, made between 512 days and 32,767 days after the beginning of
-- 2018, is three characters and those that are drawn: with five of them, an id has eight behind its
-- prefix.
pub gen_id-length :
    (days random : ℕ) (choices : List Char)
    → 512 ≤ days
    → days < 32767
    → random ≤ 8
    → (s : List Char) × (gen_id days random choices ≡ some s) × (length s ≡ 3 + length choices)
gen_id-length days random choices low high small =
    let x = days * 8 + random in
    (
      digit (x / 4096) ∷ digit (x / 64 % 64) ∷ digit (x % 64) ∷ choices,
      gen_id_digits days random choices (omega arith) (omega arith),
      omega arith,
    )

-- s < t, for strings
abbrev pub lex_less : List Char → List Char → Bool
lex_less [] [] = false
lex_less [] (d ∷ t) = true
lex_less (c ∷ s) [] = false
lex_less (c ∷ s) (d ∷ t) = ltb (code c) (code d) || (code c == code d && lex_less s t)

cons_less : (c d : Char) (s t : List Char) → code c < code d → lex_less (c ∷ s) (d ∷ t) ≡ true
cons_less c d s t h = ground arith

cons_same : (c : Char) (s t : List Char) → lex_less s t ≡ true → lex_less (c ∷ s) (c ∷ t) ≡ true
cons_same c s t h = ground arith

digits_less :
    (a b c a' b' c' : ℕ) (s t : List Char)
    → b < 64
    → c < 64
    → a' < 64
    → b' < 64
    → c' < 64
    → a * 4096 + b * 64 + c < a' * 4096 + b' * 64 + c'
    → lex_less (digit a ∷ digit b ∷ digit c ∷ s) (digit a' ∷ digit b' ∷ digit c' ∷ t) ≡ true
digits_less a b c a' b' c' s t hb hc ha' hb' hc' less = elim (Bool-cases (ltb a a')) [
  | inl first ↦
      cons_less (digit a) (digit a') (digit b ∷ digit c ∷ s) (digit b' ∷ digit c' ∷ t)
        (digit-lt a a' (ltb→lt a a' first) ha')
  | inr not_first ↦
      let e : a ≡ a' = ground arith in
      rw e (
        cons_same (digit a') (digit b ∷ digit c ∷ s) (digit b' ∷ digit c' ∷ t)
          (elim (Bool-cases (ltb b b')) [
            | inl second ↦
                cons_less (digit b) (digit b') (digit c ∷ s) (digit c' ∷ t)
                  (digit-lt b b' (ltb→lt b b' second) hb')
            | inr not_second ↦
                let e' : b ≡ b' = ground arith in
                rw e' (
                  cons_same (digit b') (digit c ∷ s) (digit c' ∷ t)
                    (cons_less (digit c) (digit c') s t (digit-lt c c' (omega arith) hc')))
          ]))
]

-- Ids are in the order of their days, in the same range of days: where the number of one day and its
-- random part is less, the id comes first, whatever else is drawn.
pub gen_id_ordered :
    (days days' random random' : ℕ) (choices choices' s t : List Char)
    → 512 ≤ days
    → days' < 32767
    → random' ≤ 8
    → days * 8 + random < days' * 8 + random'
    → gen_id days random choices ≡ some s
    → gen_id days' random' choices' ≡ some t
    → lex_less s t ≡ true
gen_id_ordered days days' random random' choices choices' s t low high small' less hs ht =
    let x = days * 8 + random in
    let y = days' * 8 + random' in
    let es : digit (x / 4096) ∷ digit (x / 64 % 64) ∷ digit (x % 64) ∷ choices ≡ s =
      some_injective (sym (gen_id_digits days random choices (omega arith) (omega arith)) ∙ hs) in
    let et : digit (y / 4096) ∷ digit (y / 64 % 64) ∷ digit (y % 64) ∷ choices' ≡ t =
      some_injective
        (sym (gen_id_digits days' random' choices' (omega arith) (omega arith)) ∙ ht) in
    rw (← es, ← et)
      (digits_less (x / 4096) (x / 64 % 64) (x % 64) (y / 4096) (y / 64 % 64) (y % 64) choices
        choices' (omega arith) (omega arith) (omega arith) (omega arith) (omega arith)
        (omega arith))
