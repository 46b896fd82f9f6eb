-- ===== src/Prelude/Lists.antt =====
-- Lists measured and indexed by native numbers, and predicates on their elements.
use Prim.Native.Nat.{ℕ, zero, suc, ◌+◌, ◌≤◌, ◌<◌}
use mathlib.Core.Path.{◌≡◌, refl, sym, subst, ap, ◌∙◌}
use mathlib.Core.Logic.{inl, inr}
use mathlib.Core.Bool.{Bool, true, false}
use mathlib.Core.Option.{Option, none, some}
use mathlib.Core.List.{List, [], ◌∷◌, ◌++◌}
use native.Mathlib.Omega.{arith}
use xtra.Prelude.Tests.{if◌then◌else◌, ◌==◌, ==_iff, update, Bool-cases}

module _ {ℓ} {A : Type ℓ} where
  abbrev pub length : List A → ℕ
  length [] = 0
  length (x ∷ xs) = suc (length xs)

  abbrev pub get_elem? : List A → ℕ → Option A
  get_elem? [] i = none
  get_elem? (x ∷ xs) zero = some x
  get_elem? (x ∷ xs) (suc i) = get_elem? xs i

  -- What is left when the element at an index is taken out; all of it, past the end.
  abbrev pub remove_at : List A → ℕ → List A
  remove_at [] i = []
  remove_at (x ∷ xs) zero = xs
  remove_at (x ∷ xs) (suc i) = x ∷ remove_at xs i

  -- The elements that pass a test, in order.
  abbrev pub retain : (A → Bool) → List A → List A
  retain p [] = []
  retain p (x ∷ xs) = if p x then x ∷ retain p xs else retain p xs

  abbrev pub All {κ} : (A → Type κ) → List A → Type κ
  All P [] = Unit
  All P (x ∷ xs) = P x × All P xs

  pub length-append : (xs ys : List A) → length (xs ++ ys) ≡ length xs + length ys
  length-append [] ys = omega arith
  length-append (x ∷ xs) ys = omega (arith, length-append xs ys)

  pub get_elem?-middle :
      (xs : List A) (a : A) (ys : List A) → get_elem? (xs ++ a ∷ ys) (length xs) ≡ some a
  get_elem?-middle [] a ys = refl
  get_elem?-middle (x ∷ xs) a ys = get_elem?-middle xs a ys

  pub remove_at-middle :
      (xs : List A) (a : A) (ys : List A) → remove_at (xs ++ a ∷ ys) (length xs) ≡ xs ++ ys
  remove_at-middle [] a ys = refl
  remove_at-middle (x ∷ xs) a ys = ap (◌∷◌ x) (remove_at-middle xs a ys)

  pub length-retain-le : (p : A → Bool) (xs : List A) → length (retain p xs) ≤ length xs
  length-retain-le p [] = omega arith
  length-retain-le p (x ∷ xs) = ground (arith, length-retain-le p xs)

  pub All-append {κ} : (P : A → Type κ) (xs ys : List A) → All P xs → All P ys → All P (xs ++ ys)
  All-append P [] ys hx hy = hy
  All-append P (x ∷ xs) ys hx hy = (hx.0, All-append P xs ys hx.1 hy)

  pub All-mono {κ} : (P Q : A → Type κ) (xs : List A) → ((a : A) → P a → Q a) → All P xs → All Q xs
  All-mono P Q [] f h = tt
  All-mono P Q (x ∷ xs) f h = (f x h.0, All-mono P Q xs f h.1)

  pub All-zip {κ} :
      (P Q R : A → Type κ) (xs : List A)
      → ((a : A) → P a → Q a → R a)
      → All P xs
      → All Q xs
      → All R xs
  All-zip P Q R [] f h k = tt
  All-zip P Q R (x ∷ xs) f h k = (f x h.0 k.0, All-zip P Q R xs f h.1 k.1)

  -- `All` at two lists that are joined, with an element between them or without.
  pub All-middle {κ} :
      (P : A → Type κ) (xs : List A) (a : A) (ys : List A)
      → All P (xs ++ a ∷ ys)
      → P a × All P (xs ++ ys)
  All-middle P [] a ys h = h
  All-middle P (x ∷ xs) a ys h = let (pa, rest) = All-middle P xs a ys h.1 in (pa, (h.0, rest))

module _ {ℓ} {A : Type ℓ} where
  pub All-retain {κ} :
      (P : A → Type κ) (p : A → Bool) (xs : List A) → All P xs → All P (retain p xs)
  All-retain P p [] h = tt
  All-retain P p (x ∷ xs) h = elim (Bool-cases (p x)) [
    | inl e ↦ rw e (h.0, All-retain P p xs h.1)
    | inr e ↦ rw e (All-retain P p xs h.1)
  ]

  -- What is retained passes the test.
  pub retain-All : (p : A → Bool) (xs : List A) → All (λ x. p x ≡ true) (retain p xs)
  retain-All p [] = tt
  retain-All p (x ∷ xs) = elim (Bool-cases (p x)) [
    | inl e ↦ rw e (e, retain-All p xs)
    | inr e ↦ rw e (retain-All p xs)
  ]

  -- Nothing is retained exactly when nothing passes.
  pub retain-nil : (p : A → Bool) (xs : List A) → All (λ x. p x ≡ false) xs → retain p xs ≡ []
  retain-nil p [] h = refl
  retain-nil p (x ∷ xs) h = rw h.0 (retain-nil p xs h.1)

-- No number stands twice in the list.
abbrev pub Distinct : List ℕ → Type 0
Distinct [] = Unit {0}
Distinct (x ∷ xs) = All (λ y. (x == y) ≡ false) xs × Distinct xs

pub Distinct-retain : (p : ℕ → Bool) (xs : List ℕ) → Distinct xs → Distinct (retain p xs)
Distinct-retain p [] h = tt
Distinct-retain p (x ∷ xs) h = elim (Bool-cases (p x)) [
  | inl e ↦ rw e (All-retain _ p xs h.0, Distinct-retain p xs h.1)
  | inr e ↦ rw e (Distinct-retain p xs h.1)
]

pub Distinct-middle :
    (xs : List ℕ) (a : ℕ) (ys : List ℕ)
    → Distinct (xs ++ a ∷ ys)
    → All (λ y. (a == y) ≡ false) (xs ++ ys) × Distinct (xs ++ ys)
Distinct-middle [] a ys h = h
Distinct-middle (x ∷ xs) a ys h =
    let (apart, rest) = Distinct-middle xs a ys h.1 in
    let (differ, others) = All-middle _ xs a ys h.0 in ((ground arith, apart), (others, rest))

pub Distinct-snoc :
    (xs : List ℕ) (n : ℕ) → All (λ x. x < n) xs → Distinct xs → Distinct (xs ++ n ∷ [])
Distinct-snoc [] n below h = (tt, tt)
Distinct-snoc (x ∷ xs) n below h =
    let apart : (x == n) ≡ false = ground arith in
    (All-append (λ y. (x == y) ≡ false) xs (n ∷ []) h.0 (apart, tt), Distinct-snoc xs n below.1 h.1)

module _ {ℓ κ} {A : Type ℓ} where
  -- A property of what a list of numbers names survives an update that keeps it.
  pub All-update :
      (P : A → Type κ) (cells : ℕ → A) (h : ℕ) (c : A) (xs : List ℕ)
      → (P (cells h) → P c)
      → All (λ x. P (cells x)) xs
      → All (λ x. P (update cells h c x)) xs
  All-update P cells h c [] keep all = tt
  All-update P cells h c (x ∷ xs) keep all = (
    elim (Bool-cases (h == x)) [
      | inl e ↦ rw e (keep (subst (λ y. P (cells y)) (sym ((==_iff h x).0 e)) all.0))
      | inr e ↦ rw e all.0
    ],
    All-update P cells h c xs keep all.1,
  )

  -- The same, where the list does not have the updated number.
  pub All-update_apart :
      (P : A → Type κ) (cells : ℕ → A) (h : ℕ) (c : A) (xs : List ℕ)
      → All (λ x. (h == x) ≡ false) xs
      → All (λ x. P (cells x)) xs
      → All (λ x. P (update cells h c x)) xs
  All-update_apart P cells h c [] apart all = tt
  All-update_apart P cells h c (x ∷ xs) apart all =
      (rw (apart.0) all.0, All-update_apart P cells h c xs apart.1 all.1)

abbrev pub elem : ℕ → List ℕ → Bool
elem n [] = false
elem n (x ∷ xs) = if x == n then true else elem n xs

pub elem-append : (n : ℕ) (xs ys : List ℕ) → elem n xs ≡ true → elem n (xs ++ ys) ≡ true
elem-append n [] ys h = cc
elem-append n (x ∷ xs) ys h = ground (arith, elem-append n xs ys)

pub elem-snoc : (n : ℕ) (xs : List ℕ) → elem n (xs ++ n ∷ []) ≡ true
elem-snoc n [] = ground arith
elem-snoc n (x ∷ xs) = ground (arith, elem-snoc n xs)

pub elem-retain :
    (n : ℕ) (p : ℕ → Bool) (xs : List ℕ)
    → p n ≡ true
    → elem n xs ≡ true
    → elem n (retain p xs) ≡ true
elem-retain n p [] e h = h
elem-retain n p (x ∷ xs) e h = elim (Bool-cases (x == n)) [
  | inl s ↦ let same : p x ≡ true = ap p ((==_iff x n).0 s) ∙ e in rw (same, s) refl
  | inr d ↦
      let rest = elem-retain n p xs e (ground arith) in
      elim (Bool-cases (p x)) [ inl k ↦ rw (k, d) rest | inr k ↦ rw k rest ]
]

pub elem-middle :
    (n a : ℕ) (xs ys : List ℕ)
    → (a == n) ≡ false
    → elem n (xs ++ a ∷ ys) ≡ true
    → elem n (xs ++ ys) ≡ true
elem-middle n a [] ys e h = ground arith
elem-middle n a (x ∷ xs) ys e h = ground (arith, elem-middle n a xs ys e)

pub All-elem {κ} : (P : ℕ → Type κ) (n : ℕ) (xs : List ℕ) → All P xs → elem n xs ≡ true → P n
All-elem P n [] all h = cc
All-elem P n (x ∷ xs) all h = elim (Bool-cases (x == n)) [
  | inl e ↦ subst P ((==_iff x n).0 e) all.0
  | inr e ↦ All-elem P n xs all.1 (ground arith)
]
