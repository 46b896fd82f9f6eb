-- ===== src/BinaryHeap/Laws.antt =====
-- What `BinaryHeap` documents of its operations.
use mathlib.Core.List.Perm
use mathlib.Core.List.{Mem, mem-cons, not-mem-nil}
use mathlib.Core.Bool.{Bool-set}
use mathlib.Core.Logic.Or
use xtra.Prelude.{
  suc, ◌≡◌, refl, ◌⊎◌, inl, inr, List, [], ◌∷◌, Option, none, some, arith, length, All, Bool-cases,
  Perm, false,
}
use xtra.Priority.{Priority, HasPriority, priority}
use xtra.Priority.Order.{le, ◌⊑◌, le_refl, le_trans, le_total}
use xtra.BinaryHeap.{BinaryHeap, split_max, pop_items, empty, push, len, to_list, pop, peek}

pub to_list-empty : (A : Type 0) → to_list (empty {A = A}) ≡ []
unfolding to_list empty
to_list-empty A = refl

module _ {A : Type 0} where
  pub len-to_list : (h : BinaryHeap A) → len h ≡ length (to_list h)
  unfolding len to_list
  len-to_list h = refl

  pub len-push : (h : BinaryHeap A) (a : A) → len (push h a) ≡ suc (len h)
  unfolding len push
  len-push h a = refl

  pub to_list-push : (h : BinaryHeap A) (a : A) → Perm (to_list (push h a)) (a ∷ to_list h)
  unfolding to_list push
  to_list-push h a = Perm.refl _

module _ {A : Type 0} ⦃o : HasPriority A⦄ where
  -- No element of the list outranks `m`.
  abbrev pub Tops : A → List A → Type 0
  Tops m = All (λ x. priority x ⊑ priority m)

  Tops-mono : (m n : A) (xs : List A) → priority m ⊑ priority n → Tops m xs → Tops n xs
  Tops-mono m n [] h t = tt
  Tops-mono m n (x ∷ xs) h t =
      (le_trans (priority x) (priority m) (priority n) t.0 h, Tops-mono m n xs h t.1)

  le_of_not_le : (m x : A) → le (priority m) (priority x) ≡ false → priority x ⊑ priority m
  le_of_not_le m x e = elim (le_total (priority x) (priority m)) [ inl h ↦ h | inr h ↦ cc (h, e) ]

  split_max-Tops : (x : A) (ys : List A) → Tops (split_max x ys).0 (split_max x ys).1
  unfolding split_max
  split_max-Tops x [] = tt
  split_max-Tops x (y ∷ ys) =
      let (m, rest) = split_max y ys in
      let below = split_max-Tops y ys in
      elim (Bool-cases (le (priority m) (priority x))) [
        | inl e ↦ rw e (e, Tops-mono m x rest e below)
        | inr e ↦ rw e (le_of_not_le m x e, below)
      ]

  split_max-Perm : (x : A) (ys : List A) → Perm (x ∷ ys) ((split_max x ys).0 ∷ (split_max x ys).1)
  unfolding split_max
  split_max-Perm x [] = Perm.refl _
  split_max-Perm x (y ∷ ys) =
      let (m, rest) = split_max y ys in
      let tail = Perm.cons x (split_max-Perm y ys) in
      elim (Bool-cases (le (priority m) (priority x))) [
        | inl e ↦ rw e tail
        | inr e ↦ rw e (Perm.trans tail (Perm.swap m x rest))
      ]

  split_max-length : (x : A) (ys : List A) → length (split_max x ys).1 ≡ length ys
  unfolding split_max
  split_max-length x [] = refl
  split_max-length x (y ∷ ys) = ground (arith, split_max-length y ys)

  -- `r` is what popping a heap with the elements `xs` gives.
  abbrev pub Pops : List A → Option (A × BinaryHeap A) → Type 0
  Pops xs r =
      ((xs ≡ []) × (r ≡ none))
      ⊎ ((a : A) × (h : BinaryHeap A) × (r ≡ some (a, h))
          × Perm xs (a ∷ to_list h)
          × Tops a (to_list h)
          × (length xs ≡ suc (len h)))

  pop_items-Pops : (xs : List A) → Pops xs (pop_items xs)
  unfolding pop_items to_list len
  pop_items-Pops [] = inl (refl, refl)
  pop_items-Pops (x ∷ xs) = inr (
    (split_max x xs).0,
    record { items = (split_max x xs).1 },
    refl,
    split_max-Perm x xs,
    split_max-Tops x xs,
    omega (arith, split_max-length x xs),
  )

  -- `pop` fails on the empty heap only, and otherwise takes out a greatest element.
  pub pop-Pops : (h : BinaryHeap A) → Pops (to_list h) (pop h)
  unfolding pop to_list
  pop-Pops h = pop_items-Pops h.items

  -- `peek` shows what `pop` would take.
  pub peek-pop :
      (h : BinaryHeap A) → peek h ≡ elim (pop h) [ none ↦ none | some (a, rest) ↦ some a ]
  unfolding peek pop
  peek-pop h = refl

  -- No element of the list has a priority above `p`.
  abbrev pub Within : Priority → List A → Type 0
  Within p xs = (x : A) → Mem x xs → priority x ⊑ p

  Tops-Within : (m : A) (xs : List A) → Tops m xs → Within (priority m) xs
  Tops-Within m [] t x mem = absurd (not-mem-nil mem)
  Tops-Within m (y ∷ ys) t x mem =
      Or.elim (Bool-set _ _) (mem-cons.0 mem) (λ e. rw e t.0) (Tops-Within m ys t.1 x)

  -- A greatest element bounds the heap that it was popped from.
  pub popped-Within :
      (xs : List A) (m : A) (rest : List A) (p : Priority)
      → Perm xs (m ∷ rest)
      → Tops m rest
      → priority m ⊑ p
      → Within p xs
  popped-Within xs m rest p perm t h x mem =
      le_trans (priority x) (priority m) p
        (Or.elim (Bool-set _ _) (mem-cons.0 ((Perm.mem_iff perm).0 mem))
          (λ e. rw e (le_refl (priority m))) (Tops-Within m rest t x))
        h
