-- ===== src/Python/PySet.antt =====
-- set: a list without duplicates, by membership.
use apicrud.Prelude.{
  Bool, true, false, ◌||◌, ◌&&◌, not, List, [], ◌∷◌, ◌++◌, ◌≡◌, refl, ap, sym, Bool-cases, inl, inr,
  ◌⊎◌, Any, subst, if◌then◌else◌, arith, ◌==◌, Eq,
}

module _ {ℓ} {A : Type ℓ} ⦃e : Eq A⦄ where
  -- `a in xs`
  unfoldable pub contains : A → List A → Bool
  contains a [] = false
  contains a (x ∷ xs) = x == a || contains a xs

  -- xs | ys, with what `ys` adds put behind `xs`
  unfoldable pub union : List A → List A → List A
  unfolding contains
  union xs [] = xs
  union xs (y ∷ ys) = union (if contains y xs then xs else xs ++ y ∷ []) ys

  -- xs - ys
  unfoldable pub minus : List A → List A → List A
  unfolding contains
  minus [] ys = []
  minus (x ∷ xs) ys = let rest = minus xs ys in if contains x ys then rest else x ∷ rest

  pub contains-append :
      (a : A) (xs ys : List A) → contains a (xs ++ ys) ≡ (contains a xs || contains a ys)
  unfolding contains
  contains-append a [] ys = refl
  contains-append a (x ∷ xs) ys = ground (arith, contains-append a xs ys)

  contains_same :
      (a x : A) (xs : List A) → contains x xs ≡ true → (contains a xs || x == a) ≡ contains a xs
  unfolding contains
  contains_same a x xs h = elim (Bool-cases (x == a)) [
    | inl same ↦ rw (← (e.test_iff x a).0 same) (rw h)
    | inr other ↦ ground arith
  ]

  -- Membership in a union.
  pub contains-union :
      (a : A) (xs ys : List A) → contains a (union xs ys) ≡ (contains a xs || contains a ys)
  unfolding union
  contains-union a xs [] = unfold contains in ground arith
  contains-union a xs (y ∷ ys) = elim (Bool-cases (contains y xs)) [
    | inl old ↦
        rw old (
          rw (contains-union a xs ys) (unfold contains in ground (arith, contains_same a y xs old)))
    | inr new ↦ rw new (
        rw (contains-union a (xs ++ y ∷ []) ys, contains-append a xs (y ∷ []))
          (unfold contains in ground arith))
  ]

  -- Membership in a difference.
  pub contains-minus :
      (a : A) (xs ys : List A) → contains a (minus xs ys) ≡ (contains a xs && not (contains a ys))
  unfolding minus
  contains-minus a [] ys = unfold contains in refl
  contains-minus a (x ∷ xs) ys = elim (Bool-cases (x == a)) [
    | inl same ↦
        let at_a = ap (λ (z : A). contains z ys) ((e.test_iff x a).0 same) in
        unfold contains in ground (arith, at_a, contains-minus a xs ys)
    | inr other ↦ unfold contains in ground (arith, contains-minus a xs ys)
  ]

  pub union_cases :
      (a : A) (xs ys : List A)
      → contains a (union xs ys) ≡ true
      → (contains a xs ≡ true) ⊎ (contains a ys ≡ true)
  union_cases a xs ys h = ground (arith, contains-union a xs ys)

  -- A conditional `xs |= ys`.
  pub union_if_cases :
      (a : A) (hit : Bool) (xs ys : List A)
      → contains a (if hit then union xs ys else xs) ≡ true
      → (contains a xs ≡ true) ⊎ ((hit ≡ true) × (contains a ys ≡ true))
  union_if_cases a false xs ys h = inl h
  union_if_cases a true xs ys h = elim (union_cases a xs ys h) [
    | inl old ↦ inl old
    | inr new ↦ inr (refl, new)
  ]

  pub contains-union_if :
      (a : A) (hit : Bool) (xs ys : List A)
      → contains a xs ≡ true
      → contains a (if hit then union xs ys else xs) ≡ true
  contains-union_if a false xs ys h = h
  contains-union_if a true xs ys h = ground (arith, contains-union a xs ys)

  -- A property of a member holds of some item.
  pub Any-of_contains :
      (P : A → Type 0) (a : A) (xs : List A) → contains a xs ≡ true → P a → Any P xs
  unfolding contains
  Any-of_contains P a [] h p = cc
  Any-of_contains P a (x ∷ xs) h p = elim (Bool-cases (x == a)) [
    | inl same ↦ inl (subst P (sym ((e.test_iff x a).0 same)) p)
    | inr other ↦ inr (Any-of_contains P a xs (ground arith) p)
  ]
