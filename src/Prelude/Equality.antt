-- ===== src/Prelude/Equality.antt =====
-- Python's `==` on the types that the program compares, as one operator.
use Prim.Native.Nat.{ℕ}
use Prim.Native.Char.{Char, code}
use Prim.Native.String.{String}
use mathlib.Core.Path.{◌≡◌, refl, ap}
use mathlib.Core.Logic.{◌↔◌}
use mathlib.Core.Bool.{Bool, true, false}
use mathlib.Core.Option.{Option, none, some}
use text.Mathlib.Text.{◌==◌ as str_eq}
use text.Mathlib.TextEquality.{eq_iff, Char-path}
use apicrud.Prelude.Tests.{nat_eq, nat_eq_iff, nat_eq_refl}

-- A type whose values Python compares: the test, and that it is equality.
pub record Eq {ℓ} (T : Type ℓ) : Type ℓ where
  pub test : T → T → Bool
  pub test_iff : (x y : T) → (test x y ≡ true) ↔ (x ≡ y)

infix 50 ◌==◌
abbrev pub ◌==◌ {ℓ} : {T : Type ℓ} ⦃eq : Eq T⦄ → T → T → Bool
◌==◌ ⦃eq⦄ x y = eq.test x y

instance abbrev pub text_eq : Eq String
text_eq = record { test = str_eq; test_iff = eq_iff }

instance abbrev pub number_eq : Eq ℕ
number_eq = record { test = nat_eq; test_iff = nat_eq_iff }

pub char_beq_iff : (c d : Char) → (nat_eq (code c) (code d) ≡ true) ↔ (c ≡ d)
char_beq_iff c d =
    (λ h. Char-path c d ((nat_eq_iff (code c) (code d)).0 h), λ e. rw e (nat_eq_refl (code d)))

instance abbrev pub char_eq : Eq Char
char_eq = record { test = λ c d. nat_eq (code c) (code d); test_iff = char_beq_iff }

-- `==` of values that may be None
abbrev pub option_beq : Option String → Option String → Bool
option_beq none none = true
option_beq none (some b) = false
option_beq (some a) none = false
option_beq (some a) (some b) = str_eq a b

pub option_beq_iff : (a b : Option String) → (option_beq a b ≡ true) ↔ (a ≡ b)
option_beq_iff none none = (λ h. refl, λ e. refl)
option_beq_iff none (some b) = (λ h. cc, λ e. cc)
option_beq_iff (some a) none = (λ h. cc, λ e. cc)
option_beq_iff (some a) (some b) = (λ h. ap some ((eq_iff a b).0 h), λ e. (eq_iff a b).1 (cc))

instance abbrev pub option_eq : Eq (Option String)
option_eq = record { test = option_beq; test_iff = option_beq_iff }
