-- ===== src/Chan/Held/Senders.antt =====
-- What the operations on waiting senders do to the messages that these hold.
use xtra.Prelude.{
  ℕ, ◌+◌, ◌<◌, ◌≡◌, refl, ap, inl, inr, false, arith, All, ◌==◌, ==_iff, update, sum_of, below,
  sum_below-same, sum_below-update, All-middle, subst, All-retain,
}
use xtra.Std.{Waker}
use xtra.Envelope.{MessageToOne, to_one_has_priority}
use xtra.WaitingSender.{Cell, take_message, drop_handle, is_active}
use xtra.WaitingSender
use xtra.WaitingQueue
use xtra.WaitingQueue.{WaitingQueue, push_back, poll_sender, clear, try_take_waiting_message}
use xtra.WaitingQueue.Take.{Takes, try_take_waiting_message-Takes}
use xtra.WaitingQueue.Invariant.{IsWellFormed}
use xtra.WaitingQueue.Cleared.{clear-sum}
use xtra.Chan.Held.{weigh, in_cell, in_queue}

pub above : (n i : ℕ) → i < n → (n == i) ≡ false
above n i lt = ground arith

module _ {M : Type 0} (w : MessageToOne M → ℕ) where
  new-in_cell : (msg : MessageToOne M) → in_cell w (WaitingSender.new msg) ≡ w msg
  unfolding take_message WaitingSender.new
  new-in_cell msg = refl

  poll-in_cell :
      (c : Cell (MessageToOne M)) (v : Waker) → in_cell w (WaitingSender.poll c v).1 ≡ in_cell w c
  unfolding take_message WaitingSender.poll
  poll-in_cell c v = ground arith

  drop_sender-in_cell : (c : Cell (MessageToOne M)) → in_cell w (WaitingSender.drop_sender c) ≡ 0
  unfolding take_message WaitingSender.drop_sender
  drop_sender-in_cell c = ground arith

  drop_handle-in_cell : (c : Cell (MessageToOne M)) → in_cell w (drop_handle c).0 ≡ 0
  unfolding take_message drop_handle
  drop_handle-in_cell c = ground arith

  -- Another message waits.
  pub push_back-in_queue :
      (q : WaitingQueue (MessageToOne M)) (msg : MessageToOne M)
      → in_queue w (push_back q msg).1 ≡ in_queue w q + w msg
  unfolding push_back
  push_back-in_queue q msg =
      let same =
        sum_below-same q.next_cell (λ h. in_cell w (q.cells h))
          (λ h. in_cell w (update q.cells q.next_cell (WaitingSender.new msg) h))
          (λ i lt. rw (above q.next_cell i lt) refl) in
      rw ((==_iff q.next_cell q.next_cell).1 refl) (omega (arith, same, new-in_cell msg))

  -- A poll changes nothing, and a sender that is dropped takes its message with it.
  pub poll_sender-in_queue :
      (q : WaitingQueue (MessageToOne M)) (h : ℕ) (v : Waker)
      → in_queue w (poll_sender q h v).1 ≡ in_queue w q
  unfolding poll_sender
  poll_sender-in_queue q h v =
      let changed =
        sum_below-update q.next_cell h (in_cell w) q.cells (WaitingSender.poll (q.cells h) v).1 in
      let kept = poll-in_cell (q.cells h) v in ground (arith, changed)

  pub drop_sender-in_queue :
      (q : WaitingQueue (MessageToOne M)) (h : ℕ)
      → in_queue w (WaitingQueue.drop_sender q h) + below q.next_cell (λ i. in_cell w (q.cells i)) h
        ≡ in_queue w q
  unfolding WaitingQueue.drop_sender
  drop_sender-in_queue q h =
      let changed =
        sum_below-update q.next_cell h (in_cell w) q.cells
          (WaitingSender.drop_sender (q.cells h)) in
      let gone = drop_sender-in_cell (q.cells h) in ground (arith, changed)

  -- The queue is cleared.
  pub clear-in_queue :
      (q : WaitingQueue (MessageToOne M))
      → IsWellFormed q
      → in_queue w (clear q).0 + sum_of (λ h. in_cell w (q.cells h)) q.handles ≡ in_queue w q
  unfolding clear
  clear-in_queue q wf = clear-sum (in_cell w) q drop_handle-in_cell wf

  taken-in_cell : (c : Cell (MessageToOne M)) → in_cell w (drop_handle (take_message c).1).0 ≡ 0
  unfolding take_message drop_handle
  taken-in_cell c = ground arith

  Takes-in_queue :
      (q : WaitingQueue (MessageToOne M)) (m : MessageToOne M)
      → IsWellFormed q
      → Takes q m
      → in_queue w (try_take_waiting_message q).1 + weigh w (try_take_waiting_message q).0
        ≡ in_queue w q
  Takes-in_queue q m wf t =
      let h = t.handle in
      let left = (drop_handle (take_message (q.cells h)).1).0 in
      let changed = sum_below-update q.next_cell h (in_cell w) q.cells left in
      let lt =
        (All-middle (λ x. x < q.next_cell) t.before h t.after
          (subst (All _) t.chosen.split
            (All-retain _ (λ x. is_active (q.cells x)) q.handles wf.numbered))).0 in
      let was : below q.next_cell (λ j. in_cell w (q.cells j)) h ≡ w m =
        ground (arith, lt, ap (weigh w) t.takes) in
      let is : below q.next_cell (λ j. in_cell w left) h ≡ 0 =
        ground (arith, taken-in_cell (q.cells h)) in
      rw t.result (omega (arith, changed, was, is))

  -- A message that is taken has left the queue.
  pub try_take_waiting_message-in_queue :
      (q : WaitingQueue (MessageToOne M))
      → IsWellFormed q
      → in_queue w (try_take_waiting_message q).1 + weigh w (try_take_waiting_message q).0
        ≡ in_queue w q
  try_take_waiting_message-in_queue q wf = elim (try_take_waiting_message-Takes q wf.offers) [
    | inl (none_active, e) ↦ rw e (omega arith)
    | inr (m, t) ↦ Takes-in_queue q m wf t
  ]
