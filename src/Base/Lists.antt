-- ===== src/Base/Lists.antt =====
-- Lists measured by native numbers, and the two shapes of predicate that the components use.
use Prim.Native.Nat.{ℕ, zero, suc, ◌≤◌}
use mathlib.Core.Bool.{Bool, true, false}
use mathlib.Core.Path.{◌≡◌}
use mathlib.Core.Logic.{◌↔◌, inl, inr}
use native.Mathlib.Omega.{arith}
use mathlib.Core.List.{List, [], ◌∷◌, ◌++◌}
use booking_venue.Base.Tests.{if◌then◌else◌, ltb, Bool-cases}

module _ {ℓ} {A : Type ℓ} where
  abbrev pub length : List A → ℕ
  length [] = 0
  length (x ∷ xs) = suc (length xs)

  -- The elements that a Boolean test keeps. (The library's `filter` takes a decision.)
  unfoldable pub filter : (A → Bool) → List A → List A
  filter p [] = []
  filter p (x ∷ xs) = if p x then x ∷ filter p xs else filter p xs

  abbrev pub take : ℕ → List A → List A
  take zero xs = []
  take (suc n) [] = []
  take (suc n) (x ∷ xs) = x ∷ take n xs

  abbrev pub drop : ℕ → List A → List A
  drop zero xs = xs
  drop (suc n) [] = []
  drop (suc n) (x ∷ xs) = drop n xs

module _ {ℓ κ} {A : Type ℓ} (P : A → Type κ) where
  -- Every element has `P`; it computes to a tuple, which the tactics read and build.
  abbrev pub All : List A → Type κ
  All [] = Unit
  All (x ∷ xs) = P x × All xs

  pub All-append : (xs ys : List A) → All xs → All ys → All (xs ++ ys)
  All-append [] ys hx hy = hy
  All-append (x ∷ xs) ys hx hy = (hx.0, All-append xs ys hx.1 hy)

  pub All-append_left : (xs ys : List A) → All (xs ++ ys) → All xs
  All-append_left [] ys h = tt
  All-append_left (x ∷ xs) ys h = (h.0, All-append_left xs ys h.1)

module _ {ℓ κ} {A : Type ℓ} (P : A → Type κ) where
  pub All-take : (n : ℕ) (xs : List A) → All P xs → All P (take n xs)
  All-take zero xs a = tt
  All-take (suc n) [] a = tt
  All-take (suc n) (x ∷ xs) a = (a.0, All-take n xs a.1)

  pub All-drop : (n : ℕ) (xs : List A) → All P xs → All P (drop n xs)
  All-drop zero xs a = a
  All-drop (suc n) [] a = tt
  All-drop (suc n) (x ∷ xs) a = All-drop n xs a.1

module _ {ℓ} {A : Type ℓ} where
  pub length-take : (n : ℕ) (xs : List A) → length (take n xs) ≤ n
  length-take zero xs = omega arith
  length-take (suc n) [] = omega arith
  length-take (suc n) (x ∷ xs) = omega (arith, length-take n xs)

  -- A page is no longer than the whole list.
  pub length-page : (n m : ℕ) (xs : List A) → length (take n (drop m xs)) ≤ length xs
  length-page zero m xs = omega arith
  length-page (suc n) zero [] = omega arith
  length-page (suc n) zero (x ∷ xs) = omega (arith, length-page n zero xs)
  length-page (suc n) (suc m) [] = omega arith
  length-page (suc n) (suc m) (x ∷ xs) = omega (arith, length-page (suc n) m xs)

pub All-map {ℓ κ μ} :
    {A : Type ℓ} (P : A → Type κ) (Q : A → Type μ) (xs : List A)
    → ((x : A) → P x → Q x)
    → All P xs
    → All Q xs
All-map P Q [] f h = tt
All-map P Q (x ∷ xs) f h = (f x h.0, All-map P Q xs f h.1)

module _ {ℓ} {A : Type ℓ} (p : A → Bool) where
  -- Nothing is kept exactly when every element fails the test.
  pub filter-none :
      (xs : List A) → (ltb 0 (length (filter p xs)) ≡ false) ↔ All (λ x. p x ≡ false) xs
  unfolding filter
  filter-none [] = ground arith
  filter-none (x ∷ xs) = ground (arith, filter-none xs)

pub All-map₂ {ℓ κ μ ν} :
    {A : Type ℓ} (P : A → Type κ) (Q : A → Type μ) (R : A → Type ν) (xs : List A)
    → ((x : A) → P x → Q x → R x)
    → All P xs
    → All Q xs
    → All R xs
All-map₂ P Q R [] f h k = tt
All-map₂ P Q R (x ∷ xs) f h k = (f x h.0 k.0, All-map₂ P Q R xs f h.1 k.1)

module _ {ℓ κ} {A : Type ℓ} (P : A → Type κ) (p : A → Bool) where
  -- A property of what is kept is a property of whatever passes the test.
  pub All-filter : (xs : List A) → All (λ x. p x ≡ true → P x) xs → All P (filter p xs)
  unfolding filter
  All-filter [] h = tt
  All-filter (x ∷ xs) h = elim (Bool-cases (p x)) [
    | inl e ↦ rw e (h.0 e, All-filter xs h.1)
    | inr e ↦ rw e (All-filter xs h.1)
  ]

  pub All-unfilter : (xs : List A) → All P (filter p xs) → All (λ x. p x ≡ true → P x) xs
  unfolding filter
  All-unfilter [] h = tt
  All-unfilter (x ∷ xs) h = elim (Bool-cases (p x)) [
    | inl e ↦ let k = rw e at h in (λ _. k.0, All-unfilter xs k.1)
    | inr e ↦ (λ t. cc (e, t), All-unfilter xs (rw e at h))
  ]

module _ {ℓ κ μ} {A : Type ℓ} {B : Type κ} (R : A → B → Type μ) where
  All-nil : (xs : List A) → All (λ x. All (R x) []) xs
  All-nil [] = tt
  All-nil (x ∷ xs) = (tt, All-nil xs)

  All-cons :
      (y : B) (ys : List B) (xs : List A)
      → All (λ x. R x y) xs
      → All (λ x. All (R x) ys) xs
      → All (λ x. All (R x) (y ∷ ys)) xs
  All-cons y ys [] h k = tt
  All-cons y ys (x ∷ xs) h k = ((h.0, k.0), All-cons y ys xs h.1 k.1)

  -- A relation between all elements of two lists, listed by the one or by the other.
  pub All-swap :
      (xs : List A) (ys : List B) → All (λ y. All (λ x. R x y) xs) ys → All (λ x. All (R x) ys) xs
  All-swap xs [] h = All-nil xs
  All-swap xs (y ∷ ys) h = All-cons y ys xs h.0 (All-swap xs ys h.1)
