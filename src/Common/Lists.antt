-- ===== src/Common/Lists.antt =====
-- Lists under Boolean tests and native numbers: rows of a table, entries of a map, weighted sums.
use Prim.Native.Nat.{ℕ, zero, suc, ◌+◌, ◌≤◌}
use mathlib.Core.Path.{◌≡◌, refl, ap}
use mathlib.Core.Logic.{◌⊎◌, inl, inr, ◌↔◌}
use mathlib.Core.Bool.{Bool, true, false, ◌&&◌, ◌||◌}
use mathlib.Core.List.{List, [], ◌∷◌, ◌++◌}
use native.Mathlib.Omega.{arith}
use nexus_panel.Common.Tests.{if◌then◌else◌}

module _ {ℓ} {A : Type ℓ} where
  abbrev pub length : List A → ℕ
  length [] = 0
  length (x ∷ xs) = suc (length xs)

  abbrev pub take : ℕ → List A → List A
  take zero xs = []
  take (suc n) [] = []
  take (suc n) (x ∷ xs) = x ∷ take n xs

  abbrev pub drop : ℕ → List A → List A
  drop zero xs = xs
  drop (suc n) [] = []
  drop (suc n) (x ∷ xs) = drop n xs

  abbrev pub any : (A → Bool) → List A → Bool
  any p [] = false
  any p (x ∷ xs) = p x || any p xs

  abbrev pub all : (A → Bool) → List A → Bool
  all p [] = true
  all p (x ∷ xs) = p x && all p xs

  -- The entries that pass the test, in order.
  abbrev pub select : (A → Bool) → List A → List A
  select p [] = []
  select p (x ∷ xs) = let rest = select p xs in if p x then x ∷ rest else rest

  -- The entries that pass the test are changed, the others stay.
  abbrev pub patch : (A → Bool) → (A → A) → List A → List A
  patch p f [] = []
  patch p f (x ∷ xs) = (if p x then f x else x) ∷ patch p f xs

  -- The sum of a weight over the entries.
  abbrev pub sum_by : (A → ℕ) → List A → ℕ
  sum_by w [] = 0
  sum_by w (x ∷ xs) = w x + sum_by w xs

  pub length-append : (xs ys : List A) → length (xs ++ ys) ≡ length xs + length ys
  length-append [] ys = omega arith
  length-append (x ∷ xs) ys = omega (arith, length-append xs ys)

  pub length-patch : (p : A → Bool) (f : A → A) (xs : List A) → length (patch p f xs) ≡ length xs
  length-patch p f [] = refl
  length-patch p f (x ∷ xs) = ap suc (length-patch p f xs)

module _ {A : Type 0} where
  -- The entry stands in the list.
  abbrev pub Has : A → List A → Type 0
  Has a [] = ⊥
  Has a (x ∷ xs) = (a ≡ x) ⊎ Has a xs

  pub any-Has : (p : A → Bool) (xs : List A) {a : A} → Has a xs → p a ≡ true → any p xs ≡ true
  any-Has p [] h e = absurd h
  any-Has p (x ∷ xs) (inl h) e = ground arith
  any-Has p (x ∷ xs) (inr h) e = ground (arith, any-Has p xs h e)

  pub sum_by-Has : (w : A → ℕ) (xs : List A) {a : A} → Has a xs → w a ≤ sum_by w xs
  sum_by-Has w [] h = absurd h
  sum_by-Has w (x ∷ xs) (inl h) = ground arith
  sum_by-Has w (x ∷ xs) (inr h) = omega (arith, sum_by-Has w xs h)

module _ {A : Type 0} (P : A → Type 0) where
  abbrev pub All : List A → Type 0
  All [] = Unit
  All (x ∷ xs) = P x × All xs

  pub All-Has : (xs : List A) {a : A} → All xs → Has a xs → P a
  All-Has [] h m = absurd m
  All-Has (x ∷ xs) (p, h) (inl e) = rw e p
  All-Has (x ∷ xs) (p, h) (inr m) = All-Has xs h m

  pub All-intro : (xs : List A) → ((a : A) → Has a xs → P a) → All xs
  All-intro [] f = tt
  All-intro (x ∷ xs) f = (f x (inl refl), All-intro xs (λ a m. f a (inr m)))

  pub All-append : (xs ys : List A) → All xs → All ys → All (xs ++ ys)
  All-append [] ys h k = k
  All-append (x ∷ xs) ys (p, h) k = (p, All-append xs ys h k)

  pub All-select : (p : A → Bool) (xs : List A) → All xs → All (select p xs)
  All-select p [] h = tt
  All-select p (x ∷ xs) (q, h) = ground (arith, All-select p xs h)

  pub All-patch :
      (p : A → Bool) (f : A → A) (xs : List A)
      → ((a : A) → p a ≡ true → P a → P (f a))
      → All xs
      → All (patch p f xs)
  All-patch p f [] keep h = tt
  All-patch p f (x ∷ xs) keep (q, h) = (ground (arith, keep x), All-patch p f xs keep h)

module _ {A : Type 0} where
  pub All-map_of : (P Q : A → Type 0) (xs : List A) → ((a : A) → P a → Q a) → All P xs → All Q xs
  All-map_of P Q [] f h = tt
  All-map_of P Q (x ∷ xs) f (p, h) = (f x p, All-map_of P Q xs f h)

  pub any-false : (p : A → Bool) (xs : List A) → any p xs ≡ false → All (λ a. p a ≡ false) xs
  any-false p [] h = tt
  any-false p (x ∷ xs) h = (ground arith, any-false p xs (ground arith))

  pub any-All : (p : A → Bool) (xs : List A) → All (λ a. p a ≡ false) xs → any p xs ≡ false
  any-All p [] h = refl
  any-All p (x ∷ xs) (e, h) = ground (arith, any-All p xs h)

  pub Has-append : (a : A) (xs ys : List A) → Has a (xs ++ ys) ↔ (Has a xs ⊎ Has a ys)
  Has-append a [] ys = ((λ h. inr h), (λ h. elim h [ inl k ↦ absurd k | inr k ↦ k ]))
  Has-append a (x ∷ xs) ys = (
    (λ h. elim h [
      | inl e ↦ inl (inl e)
      | inr k ↦ elim ((Has-append a xs ys).0 k) [ inl j ↦ inl (inr j) | inr j ↦ inr j ]
    ]),
    (λ h. elim h [
      | inl k ↦ elim k [ inl e ↦ inl e | inr j ↦ inr ((Has-append a xs ys).1 (inl j)) ]
      | inr k ↦ inr ((Has-append a xs ys).1 (inr k))
    ]),
  )
