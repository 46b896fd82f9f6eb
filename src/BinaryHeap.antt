-- ===== src/BinaryHeap.antt =====
-- `std::collections::BinaryHeap`, as xtra/src/chan.rs uses it. The documentation of `BinaryHeap`
-- leaves open which of several greatest elements is popped. This model makes one choice. Outside
-- this module it is used through the laws, which hold of every choice; only tests compute with it.
pub mod Laws
use xtra.Prelude.{ℕ, List, [], ◌∷◌, Option, none, some, if◌then◌else◌, length}
use xtra.Priority.{HasPriority, priority}
use xtra.Priority.Order.{le}

pub record BinaryHeap (A : Type 0) : Type 0 where
  items : List A

module _ {A : Type 0} ⦃o : HasPriority A⦄ where
  -- A greatest element of a list that is not empty, and the others.
  split_max : A → List A → A × List A
  split_max x [] = (x, [])
  split_max x (y ∷ ys) =
      let (m, rest) = split_max y ys in
      if le (priority m) (priority x) then (x, m ∷ rest) else (m, x ∷ rest)

module _ {A : Type 0} where
  unfoldable pub empty : BinaryHeap A
  empty = record { items = [] }

  unfoldable pub push : BinaryHeap A → A → BinaryHeap A
  push h a = record { items = a ∷ h.items }

  unfoldable pub len : BinaryHeap A → ℕ
  len h = length h.items

  -- The elements, in no particular order.
  unfoldable pub to_list : BinaryHeap A → List A
  to_list h = h.items

module _ {A : Type 0} ⦃o : HasPriority A⦄ where
  pop_items : List A → Option (A × BinaryHeap A)
  pop_items [] = none
  pop_items (x ∷ xs) = let (m, rest) = split_max x xs in some (m, record { items = rest })

  unfoldable pub pop : BinaryHeap A → Option (A × BinaryHeap A)
  unfolding pop_items split_max
  pop h = pop_items h.items

  unfoldable pub peek : BinaryHeap A → Option A
  unfolding pop_items split_max
  peek h = elim (pop_items h.items) [ none ↦ none | some (m, rest) ↦ some m ]
