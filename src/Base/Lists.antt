-- ===== src/Base/Lists.antt =====
-- Lists measured by native numbers, under the library's names.
use Prim.Native.Nat.{ℕ, zero, suc, ◌+◌, ◌≤◌}
use mathlib.Core.Path.{◌≡◌, refl, ap}
use mathlib.Core.List.{List, [], ◌∷◌, ◌++◌}
use mathlib.Core.Bool.{Bool, true, false, ◌||◌}
use mathlib.Core.Option.{Option, none, some}
use mathlib.Core.Logic.{◌⊎◌, inl, inr}
use native.Mathlib.Omega.{arith}
use pingerus.Base.Tests.{if◌then◌else◌}

module _ {ℓ} {A : Type ℓ} where
  abbrev pub length : List A → ℕ
  length [] = 0
  length (x ∷ xs) = suc (length xs)

  abbrev pub take : ℕ → List A → List A
  take zero xs = []
  take (suc n) [] = []
  take (suc n) (x ∷ xs) = x ∷ take n xs

  pub length-append : (xs ys : List A) → length (xs ++ ys) ≡ length xs + length ys
  length-append [] ys = omega arith
  length-append (x ∷ xs) ys = omega (arith, length-append xs ys)

  pub length-take-le : (n : ℕ) (xs : List A) → length (take n xs) ≤ n
  length-take-le zero xs = omega arith
  length-take-le (suc n) [] = omega arith
  length-take-le (suc n) (x ∷ xs) = omega (arith, length-take-le n xs)

  -- A filter by a Boolean test; the library's wants a decision.
  abbrev pub select : (A → Bool) → List A → List A
  select p [] = []
  select p (x ∷ xs) = let rest = select p xs in if p x then x ∷ rest else rest

  -- The first element that passes the test.
  abbrev pub find? : (A → Bool) → List A → Option A
  find? p [] = none
  find? p (x ∷ xs) = if p x then some x else find? p xs

  -- The elements that pass the test are changed, the others stay.
  abbrev pub modify : (A → Bool) → (A → A) → List A → List A
  modify p f [] = []
  modify p f (x ∷ xs) = (if p x then f x else x) ∷ modify p f xs

  abbrev pub insert_by : (A → A → Bool) → A → List A → List A
  insert_by le a [] = a ∷ []
  insert_by le a (x ∷ xs) = if le a x then a ∷ x ∷ xs else x ∷ insert_by le a xs

  -- ORDER BY: a sort by insertion.
  unfoldable pub sort_by : (A → A → Bool) → List A → List A
  sort_by le [] = []
  sort_by le (x ∷ xs) = insert_by le x (sort_by le xs)

  abbrev pub exists : (A → Bool) → List A → Bool
  exists p [] = false
  exists p (x ∷ xs) = p x || exists p xs

  -- Every element has the property.
  abbrev pub All {κ} : (A → Type κ) → List A → Type κ
  All P [] = Unit
  All P (x ∷ xs) = P x × All P xs

-- Where the element stands, as a proof by recursion.
abbrev pub In : {A : Type 0} → A → List A → Type 0
In x [] = ⊥
In x (y ∷ ys) = (x ≡ y) ⊎ In x ys

module _ {ℓ κ} {A : Type ℓ} (P : A → Type κ) where
  pub All-append : (xs ys : List A) → All P xs → All P ys → All P (xs ++ ys)
  All-append [] ys hx hy = hy
  All-append (x ∷ xs) ys hx hy = (hx.0, All-append xs ys hx.1 hy)

module _ {ℓ} {A : Type ℓ} (p : A → Bool) where
  pub exists-find? : (xs : List A) {x : A} → find? p xs ≡ some x → exists p xs ≡ true
  exists-find? [] e = cc
  exists-find? (y ∷ ys) {x} e = ground (arith, exists-find? ys {x = x})

  -- What is found passes the test.
  pub find?-passes : (xs : List A) {x : A} → find? p xs ≡ some x → p x ≡ true
  find?-passes [] e = cc
  find?-passes (y ∷ ys) {x} e = ground (arith, find?-passes ys {x = x})

module _ {A : Type 0} where
  pub In-take : (x : A) (n : ℕ) (xs : List A) → In x (take n xs) → In x xs
  In-take x zero xs h = absurd h
  In-take x (suc n) [] h = absurd h
  In-take x (suc n) (y ∷ ys) (inl e) = inl e
  In-take x (suc n) (y ∷ ys) (inr h) = inr (In-take x n ys h)

  pub In-select : (x : A) (p : A → Bool) (xs : List A) → In x (select p xs) → In x xs
  In-select x p [] h = absurd h
  In-select x p (y ∷ ys) h = ground (arith, In-select x p ys)

  In-insert_by :
      (x : A) (le : A → A → Bool) (y : A) (xs : List A)
      → In x (insert_by le y xs)
      → (x ≡ y) ⊎ In x xs
  In-insert_by x le y [] h = h
  In-insert_by x le y (z ∷ zs) h = ground (arith, In-insert_by x le y zs)

  pub In-sort_by : (x : A) (le : A → A → Bool) (xs : List A) → In x (sort_by le xs) → In x xs
  unfolding sort_by
  In-sort_by x le [] h = h
  In-sort_by x le (y ∷ ys) h =
      ground (arith, In-insert_by x le y (sort_by le ys), In-sort_by x le ys)

  pub In-append : (x : A) (xs ys : List A) → In x xs → In x (xs ++ ys)
  In-append x [] ys h = absurd h
  In-append x (z ∷ zs) ys (inl e) = inl e
  In-append x (z ∷ zs) ys (inr h) = inr (In-append x zs ys h)

  pub In-last : (x : A) (xs : List A) → In x (xs ++ x ∷ [])
  In-last x [] = inl refl
  In-last x (z ∷ zs) = inr (In-last x zs)

  pub append-cons : (xs : List A) (x : A) (ys : List A) → (xs ++ x ∷ []) ++ ys ≡ xs ++ x ∷ ys
  append-cons [] x ys = refl
  append-cons (z ∷ zs) x ys = ap (λ l. z ∷ l) (append-cons zs x ys)
