-- ===== src/WaitingQueue.antt =====
-- The queues `waiting_send_to_one` and `waiting_send_to_all` of xtra/src/chan.rs, with the cells that
-- their handles refer to.
pub mod Select
pub mod Take
pub mod Lined
pub mod Invariant
pub mod Close
pub mod Dropped
pub mod Cleared
use xtra.Prelude.{
  ℕ, zero, suc, Ordering, Bool, true, false, Option, none, some, List, [], ◌∷◌, ◌++◌, if◌then◌else◌,
  length, get_elem?, remove_at, retain, update,
}
use xtra.Std.{Waker, Poll, Result}
use xtra.Error.{Error}
use xtra.Priority.{Priority, HasPriority, cmp_option}
use xtra.WaitingSender.{Cell, closed, is_active, handle_priority, take_message, drop_handle}
use xtra.WaitingSender

-- A handle is the number of its cell.
pub record WaitingQueue (M : Type 0) : Type 0 where
  pub handles : List ℕ
  pub cells : ℕ → Cell M
  pub next_cell : ℕ

-- The loop of `Iterator::max_by_key`, from a first element on: of several greatest keys the last
-- counts. A position and its key are carried along.
later_wins : Ordering → Bool
later_wins Ordering.lt = true
later_wins Ordering.eq = true
later_wins Ordering.gt = false

last_max : (ℕ → Option Priority) → ℕ → Option Priority → ℕ → List ℕ → ℕ
last_max key best best_key pos [] = best
last_max key best best_key pos (h ∷ hs) =
    let wins = later_wins (cmp_option best_key (key h)) in
    last_max key (if wins then pos else best) (if wins then key h else best_key) (suc pos) hs

max_pos : (ℕ → Option Priority) → List ℕ → Option ℕ
unfolding last_max later_wins
max_pos key [] = none
max_pos key (h ∷ hs) = some (last_max key 0 (key h) 1 hs)

module _ {M : Type 0} where
  -- `VecDeque::default`. A number that names no cell yet stands for one that is gone.
  unfoldable pub empty : WaitingQueue M
  empty = record {
    handles = [];
    cells = λ h. record { inner = closed; alive = false };
    next_cell = 0;
  }

  -- `WaitingSender::new` and `push_back` of the handle; the number is that of the new cell.
  unfoldable pub push_back : WaitingQueue M → M → ℕ × WaitingQueue M
  push_back q msg = (
    q.next_cell,
    record {
      handles = q.handles ++ q.next_cell ∷ [];
      cells = update q.cells q.next_cell (WaitingSender.new msg);
      next_cell = suc q.next_cell;
    },
  )

  -- The cells after `VecDeque::clear`, which drops each handle in turn, and the tasks woken.
  drop_handles : List ℕ → (ℕ → Cell M) → (ℕ → Cell M) × List Waker
  drop_handles [] cells = (cells, [])
  drop_handles (h ∷ hs) cells =
      let (cell, woken) = drop_handle (cells h) in
      let (cells', woken') = drop_handles hs (update cells h cell) in (cells', woken ++ woken')

  unfoldable pub clear : WaitingQueue M → WaitingQueue M × List Waker
  unfolding drop_handles
  clear q =
      let (cells, woken) = drop_handles q.handles q.cells in
      (record q { handles = []; cells = cells }, woken)

  -- What the senders do with a cell of their own.
  unfoldable pub drop_sender : WaitingQueue M → ℕ → WaitingQueue M
  drop_sender q h = record q { cells = update q.cells h (WaitingSender.drop_sender (q.cells h)) }

  unfoldable pub poll_sender :
      WaitingQueue M → ℕ → Waker → Poll (Result (Unit {0}) Error) × WaitingQueue M
  poll_sender q h w =
      let (result, cell) = WaitingSender.poll (q.cells h) w in
      (result, record q { cells = update q.cells h cell })

module _ {M : Type 0} ⦃p : HasPriority M⦄ where
  abbrev pub key : WaitingQueue M → ℕ → Option Priority
  key q h = handle_priority (q.cells h)

  -- From the last handle with the greatest priority, the queue without it.
  take_out : WaitingQueue M → List ℕ → Option ℕ × WaitingQueue M
  unfolding max_pos
  take_out q active = elim (max_pos (key q) active) [
    | none ↦ (none, record q { handles = active })
    | some pos ↦ (get_elem? active pos, record q { handles = remove_at active pos })
  ]

  -- The handles that `retain` drops here are inactive: dropping one does nothing.
  unfoldable pub find_remove_highest_priority : WaitingQueue M → Option ℕ × WaitingQueue M
  unfolding take_out
  find_remove_highest_priority q = take_out q (retain (λ h. is_active (q.cells h)) q.handles)

  -- `take_message` of a handle, which is dropped at its end.
  unfoldable pub take_from : WaitingQueue M → ℕ → Option M × WaitingQueue M × List Waker
  take_from q h =
      let (message, cell, woken) = take_message (q.cells h) in
      (message, record q { cells = update q.cells h (drop_handle cell).0 }, woken)

  -- One round of the loop, after the search; `again` is the next round.
  take_round :
      (WaitingQueue M → Option M × WaitingQueue M × List Waker)
      → Option ℕ × WaitingQueue M
      → Option M × WaitingQueue M × List Waker
  take_round again (none, left) = (none, left, [])
  take_round again (some h, left) =
      let (message, after, woken) = take_from left h in
      elim message [
        | none ↦ let (message', after', woken') = again after in (message', after', woken ++ woken')
        | some m ↦ (some m, after, woken)
      ]

  pub take_loop : ℕ → WaitingQueue M → Option M × WaitingQueue M × List Waker
  take_loop zero q = (none, q, [])
  take_loop (suc fuel) q = take_round (take_loop fuel) (find_remove_highest_priority q)

  -- `try_take_waiting_unicast_message` and `try_take_waiting_broadcast_message`: one round for each
  -- handle at most, so the number of handles and one more is fuel enough.
  unfoldable pub try_take_waiting_message : WaitingQueue M → Option M × WaitingQueue M × List Waker
  unfolding take_loop take_round find_remove_highest_priority take_from
  try_take_waiting_message q = take_loop (suc (length q.handles)) q
