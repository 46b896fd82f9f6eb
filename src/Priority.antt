-- ===== src/Priority.antt =====
-- xtra/src/chan/priority.rs: priorities and the order by which mailboxes choose.
pub mod Order
use xtra.Prelude.{ℕ, compare, Ordering, Bool, true, false, Option, none, some}

-- `Valued` holds a `u32`; nothing is computed from it, so its range is not written out.
pub data Priority : Type 0 where
  valued : ℕ → Priority
  shutdown : Priority

-- `Default for Priority`
unfoldable pub default : Priority
default = valued 0

-- The derived `Ord`: variants in order of declaration, then their fields.
abbrev pub cmp : Priority → Priority → Ordering
cmp (valued a) (valued b) = compare a b
cmp (valued a) shutdown = Ordering.lt
cmp shutdown (valued b) = Ordering.gt
cmp shutdown shutdown = Ordering.eq

-- `Ord` of `Option<Priority>`: `None` comes first.
abbrev pub cmp_option : Option Priority → Option Priority → Ordering
cmp_option none none = Ordering.eq
cmp_option none (some q) = Ordering.lt
cmp_option (some p) none = Ordering.gt
cmp_option (some p) (some q) = cmp p q

pub record HasPriority {ℓ} (A : Type ℓ) : Type ℓ where
  pub priority : A → Priority

-- `ByPriority<T>` compares its content by priority alone.
pub record ByPriority {ℓ} (A : Type ℓ) : Type ℓ where
  pub content : A

abbrev pub by_priority {ℓ} : {A : Type ℓ} → A → ByPriority A
by_priority a = record { content = a }

module _ {ℓ} {A : Type ℓ} ⦃h : HasPriority A⦄ where
  abbrev pub priority : A → Priority
  priority = h.priority

instance abbrev pub by_priority_has_priority {ℓ} :
    {A : Type ℓ} ⦃h : HasPriority A⦄ → HasPriority (ByPriority A)
by_priority_has_priority ⦃h⦄ = record { priority = λ w. h.priority w.content }

module _ {ℓ} {A : Type ℓ} ⦃h : HasPriority A⦄ where
  -- `Ord for ByPriority`
  abbrev pub cmp_by : ByPriority A → ByPriority A → Ordering
  cmp_by x y = cmp (priority x.content) (priority y.content)

  -- `PartialOrd for ByPriority`
  abbrev pub partial_cmp_by : ByPriority A → ByPriority A → Option Ordering
  partial_cmp_by x y = some (cmp_by x y)

  -- `PartialEq for ByPriority`
  abbrev pub eq_by : ByPriority A → ByPriority A → Bool
  eq_by x y = elim (cmp (priority x.content) (priority y.content)) [
    | Ordering.eq ↦ true
    | _ ↦ false
  ]
