-- ===== src/Prelude/Sums.antt =====
-- Sums of a weight over a list, and over the numbers below a bound.
use mathlib.Core.HLevel.{hedberg}
use Prim.Native.Nat.{ℕ, zero, suc, ◌+◌, ◌<◌}
use mathlib.Core.Path.{◌≡◌, refl, ap, ◌∙◌}
use mathlib.Core.Logic.{inl, inr, ∥∥₁_elim}
use mathlib.Core.Bool.{false}
use mathlib.Core.List.{List, [], ◌∷◌, Perm, Permᴰ}
use native.Mathlib.Omega.{arith}
use native.Mathlib.Decide.{ℕ_discrete}
use xtra.Prelude.Tests.{if◌then◌else◌, ltb, ◌==◌, ==_iff, Bool-cases, update}

module _ {ℓ} {A : Type ℓ} where
  abbrev pub sum_of : (A → ℕ) → List A → ℕ
  sum_of f [] = 0
  sum_of f (x ∷ xs) = f x + sum_of f xs

  sum_of-Permᴰ : (f : A → ℕ) {xs ys : List A} → Permᴰ xs ys → sum_of f xs ≡ sum_of f ys
  sum_of-Permᴰ f Permᴰ.nil = refl
  sum_of-Permᴰ f (Permᴰ.cons e d) = omega (arith, ap f e, sum_of-Permᴰ f d)
  sum_of-Permᴰ f (Permᴰ.swap e e') = omega (arith, ap f e, ap f e')
  sum_of-Permᴰ f (Permᴰ.trans d e) = sum_of-Permᴰ f d ∙ sum_of-Permᴰ f e

  -- The order does not count.
  pub sum_of-Perm : (f : A → ℕ) (xs ys : List A) → Perm xs ys → sum_of f xs ≡ sum_of f ys
  sum_of-Perm f xs ys p = ∥∥₁_elim p (hedberg ℕ_discrete _ _) (sum_of-Permᴰ f)

abbrev pub sum_below : ℕ → (ℕ → ℕ) → ℕ
sum_below zero f = 0
sum_below (suc n) f = f n + sum_below n f

-- The value at a number below the bound, and 0 at any other.
abbrev pub below : ℕ → (ℕ → ℕ) → ℕ → ℕ
below n f i = if ltb i n then f i else 0

pub sum_below-same :
    (n : ℕ) (f g : ℕ → ℕ) → ((i : ℕ) → i < n → g i ≡ f i) → sum_below n g ≡ sum_below n f
sum_below-same zero f g h = refl
sum_below-same (suc n) f g h =
    omega (arith, h n (omega arith), sum_below-same n f g (λ i lt. h i (omega arith)))

at_top : (n i : ℕ) (f : ℕ → ℕ) → i ≡ n → below (suc n) f i ≡ f n
at_top n i f e = ground arith

not_top : (n i : ℕ) (f : ℕ → ℕ) → (i == n) ≡ false → below (suc n) f i ≡ below n f i
not_top n i f e = ground arith

-- One value changes, below the bound or not.
pub sum_below-changed :
    (n i : ℕ) (f g : ℕ → ℕ)
    → ((j : ℕ) → (i == j) ≡ false → g j ≡ f j)
    → sum_below n g + below n f i ≡ sum_below n f + below n g i
sum_below-changed zero i f g h = ground arith
sum_below-changed (suc n) i f g h = elim (Bool-cases (i == n)) [
  | inl e ↦ omega (
    arith,
    (==_iff i n).0 e,
    at_top n i f ((==_iff i n).0 e),
    at_top n i g ((==_iff i n).0 e),
    sum_below-same n f g (λ j lt. h j (ground arith)),
  )
  | inr e ↦ omega (arith, h n e, not_top n i f e, not_top n i g e, sum_below-changed n i f g h)
]

-- One of the things that the numbers name changes.
pub sum_below-update {ℓ} :
    {A : Type ℓ} (n i : ℕ) (f : A → ℕ) (cells : ℕ → A) (c : A)
    → sum_below n (λ j. f (update cells i c j)) + below n (λ j. f (cells j)) i
      ≡ sum_below n (λ j. f (cells j)) + below n (λ j. f c) i
sum_below-update n i f cells c =
    let changed =
      sum_below-changed n i (λ j. f (cells j)) (λ j. f (update cells i c j)) (λ j h. rw h refl) in
    let now : below n (λ j. f (update cells i c j)) i ≡ below n (λ j. f c) i =
      rw ((==_iff i i).1 refl) refl in
    omega (arith, changed, now)
