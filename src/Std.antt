-- ===== src/Std.antt =====
-- What the program takes from `std` besides lists and options: `Poll`, `Result`, `ControlFlow`,
-- the `Either` of futures, and `usize` arithmetic on a 64-bit machine.
use xtra.Prelude.{ℕ, ◌+◌, ◌-◌, ◌%◌, ◌^◌}

pub data Poll {ℓ} (A : Type ℓ) : Type ℓ where
  ready : A → Poll A
  pending : Poll A

pub data Result {ℓ} (A : Type ℓ) (E : Type ℓ) : Type ℓ where
  ok : A → Result A E
  err : E → Result A E

-- `ControlFlow<(), ()>`
pub data ControlFlow : Type 0 where
  continue : ControlFlow
  break : ControlFlow

-- `futures_util::future::Either`
pub data Either (A B : Type 0) : Type 0 where
  left : A → Either A B
  right : B → Either A B

-- A task's waker, by the task's number.
abbrev pub Waker : Type 0
Waker = ℕ

abbrev pub usize_mod : ℕ
usize_mod = 2 ^ 64

-- `fetch_add(1)` and `fetch_sub(1)` wrap around; so does `+= 1` with overflow checks off.
abbrev pub wrapping_inc : ℕ → ℕ
wrapping_inc n = (n + 1) % usize_mod

abbrev pub wrapping_dec : ℕ → ℕ
wrapping_dec n = (n + usize_mod - 1) % usize_mod
