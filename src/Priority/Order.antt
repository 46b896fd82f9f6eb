-- ===== src/Priority/Order.antt =====
-- The order of priorities is total, and a shutdown outranks every message.
use xtra.Prelude.{Ordering, ◌≡◌, refl, ◌⊎◌, inl, inr, Bool, true, false, Option, none, some, arith}
use xtra.Priority.{Priority, valued, shutdown, cmp, cmp_option}

-- `a` does not come after `b`.
abbrev pub le : Priority → Priority → Bool
le a b = elim (cmp a b) [ Ordering.gt ↦ false | _ ↦ true ]

infix 50 ◌⊑◌ ◌⊏◌
abbrev pub ◌⊑◌ : Priority → Priority → Type 0
a ⊑ b = le a b ≡ true

abbrev pub ◌⊏◌ : Priority → Priority → Type 0
a ⊏ b = cmp a b ≡ Ordering.lt

pub le_refl : (p : Priority) → p ⊑ p
le_refl (valued a) = ground arith
le_refl shutdown = refl

pub le_trans : (p q r : Priority) → p ⊑ q → q ⊑ r → p ⊑ r
le_trans (valued a) (valued b) (valued c) h k = ground arith
le_trans p q shutdown h k = ground arith
le_trans p shutdown (valued c) h k = ground arith
le_trans shutdown (valued b) (valued c) h k = ground arith

pub le_total : (p q : Priority) → (p ⊑ q) ⊎ (q ⊑ p)
le_total (valued a) (valued b) = ground arith
le_total (valued a) shutdown = inl refl
le_total shutdown (valued b) = inr refl
le_total shutdown shutdown = inl refl

pub le_antisymm : (p q : Priority) → p ⊑ q → q ⊑ p → p ≡ q
le_antisymm (valued a) (valued b) h k = ground arith
le_antisymm (valued a) shutdown h k = ground arith
le_antisymm shutdown (valued b) h k = ground arith
le_antisymm shutdown shutdown h k = refl

pub le_shutdown : (p : Priority) → p ⊑ shutdown
le_shutdown (valued a) = refl
le_shutdown shutdown = refl

pub lt-le : (p q : Priority) → p ⊏ q → p ⊑ q
lt-le p q h = ground arith

pub not_lt-ge : (p q : Priority) → ¬ (p ⊏ q) → q ⊑ p
not_lt-ge (valued a) (valued b) h = ground arith
not_lt-ge (valued a) shutdown h = absurd (h refl)
not_lt-ge shutdown (valued b) h = refl
not_lt-ge shutdown shutdown h = refl

-- The same for `Option<Priority>`, where `None` comes first.
abbrev pub le_option : Option Priority → Option Priority → Bool
le_option a b = elim (cmp_option a b) [ Ordering.gt ↦ false | _ ↦ true ]

pub le_option_refl : (p : Option Priority) → le_option p p ≡ true
le_option_refl none = refl
le_option_refl (some p) = le_refl p

pub le_option_trans :
    (p q r : Option Priority) → le_option p q ≡ true → le_option q r ≡ true → le_option p r ≡ true
le_option_trans none none r h k = k
le_option_trans none (some q) none h k = refl
le_option_trans none (some q) (some r) h k = refl
le_option_trans (some p) none r h k = ground arith
le_option_trans (some p) (some q) none h k = ground arith
le_option_trans (some p) (some q) (some r) h k = le_trans p q r h k

pub not_le_option-le : (p q : Option Priority) → le_option p q ≡ false → le_option q p ≡ true
not_le_option-le none none h = refl
not_le_option-le none (some q) h = ground arith
not_le_option-le (some p) none h = refl
not_le_option-le (some (valued a)) (some (valued b)) h = ground arith
not_le_option-le (some (valued a)) (some shutdown) h = ground arith
not_le_option-le (some shutdown) (some (valued b)) h = refl
not_le_option-le (some shutdown) (some shutdown) h = refl

-- Strictly below one that is below another is strictly below that.
pub not_le_option_trans :
    (p q r : Option Priority) → le_option p q ≡ false → le_option p r ≡ true → le_option r q ≡ false
not_le_option_trans none none r h k = ground arith
not_le_option_trans none (some q) r h k = ground arith
not_le_option_trans (some p) none none h k = ground arith
not_le_option_trans (some p) none (some r) h k = refl
not_le_option_trans (some p) (some q) none h k = ground arith
not_le_option_trans (some (valued a)) (some (valued b)) (some (valued c)) h k = ground arith
not_le_option_trans (some (valued a)) (some (valued b)) (some shutdown) h k = refl
not_le_option_trans (some (valued a)) (some shutdown) (some r) h k = ground arith
not_le_option_trans (some shutdown) (some (valued b)) (some (valued c)) h k = ground arith
not_le_option_trans (some shutdown) (some (valued b)) (some shutdown) h k = refl
not_le_option_trans (some shutdown) (some shutdown) (some r) h k = ground arith
