-- ===== src/Chan/Backpressure.antt =====
-- A sender of a message for one actor waits only while the mailbox is full.
use xtra.Prelude.{
  ℕ, suc, ◌≡◌, ap, ◌⊎◌, inl, inr, true, Option, none, some, List, arith, Bool-cases, ◌==◌,
}
use xtra.Priority.{by_priority, by_priority_has_priority}
use xtra.BinaryHeap
use xtra.BinaryHeap.Laws.{len-push}
use xtra.Envelope.{MessageToOne, to_one_has_priority, to_all_has_priority}
use xtra.Std.{Waker, wrapping_dec}
use xtra.WaitingQueue
use xtra.WaitingQueue.{WaitingQueue, try_take_waiting_message, clear, push_back}
use xtra.WaitingQueue.Take.{
  NoneActive, try_take_waiting_message-none, try_take_waiting_message-NoneActive,
}
use xtra.WaitingQueue.Invariant.{poll_sender-NoneActive, drop_sender-NoneActive}
use xtra.Chan.State.{Deps, Chan}
use xtra.Chan.Inner.{
  reached, push_unicast, is_unicast_full, try_take_waiting_unicast_message, try_fulfill_receiver,
  send_broadcast,
}
use xtra.Chan.Inner.Cases.{
  Refilled, full, nobody, took, refill_unicast-Refilled, Popped, nothing, popped,
  pop_unicast-Popped, pop_broadcast-PoppedBroadcast,
}
use xtra.Chan.Methods.{
  new, on_sender_created, on_receiver_created, on_receiver_dropped, new_broadcast_mailbox,
  disconnect_listener, next_broadcast_message, shutdown_all_receivers, shutdown_waiting_senders,
  try_recv, wait_or_exit, queue_to_one, place_to_one, requeue_unfulfilled, requeue_message,
}
use xtra.Chan.Methods.Cases.{try_recv-any}
use xtra.Chan.Steps.{
  Step, Steps, here, next, poll_to_one, poll_to_all, drop_to_one, drop_to_all, set_slot,
  clone_mailbox, drop_mailbox, sender_created, sender_dropped, receiver_created, receiver_dropped,
  mailbox_created, sends_to_one, sends_to_all, receives, stops_all, listens, requeues,
  takes_broadcast, polls_to_one, polls_to_all, drops_to_one, drops_to_all, polls_slot, cancels_slot,
  drops_slot, clones_mailbox, drops_mailbox,
}
use xtra.Chan.SameUnicast.{
  SameUnicast, same, PoppedBroadcast-SameUnicast, fulfilled-SameUnicast, queue_to_all-SameUnicast,
  on_sender_dropped-SameUnicast,
}

reached-suc : (limit : Option ℕ) (n : ℕ) → reached limit n ≡ true → reached limit (suc n) ≡ true
reached-suc none n h = h
reached-suc (some limit) n h = ground arith

module _ {M : Type 0} {D : Deps M} where
  pub IsBackpressured : Chan D → Type 0
  IsBackpressured c = NoneActive c.waiting_send_to_one ⊎ (is_unicast_full c ≡ true)

  -- Before room was made in the mailbox, it was full or nobody waited.
  Refilled-IsBackpressured :
      (c r : Chan D)
      → NoneActive c.waiting_send_to_one
        ⊎ (reached c.capacity (suc (BinaryHeap.len c.unicast_queue)) ≡ true)
      → Refilled c r
      → IsBackpressured r
  unfolding IsBackpressured is_unicast_full try_take_waiting_unicast_message push_unicast
  Refilled-IsBackpressured c r h (full e same) = inr (rw same e)
  Refilled-IsBackpressured c r h (nobody e n left) =
      inl (rw (left, try_take_waiting_message-none c.waiting_send_to_one n) tt)
  Refilled-IsBackpressured c r (inl idle) (took msg e s left) = cc (
      ap (λ (x : Option (MessageToOne M) × WaitingQueue (MessageToOne M) × List Waker). x.0)
        (try_take_waiting_message-NoneActive c.waiting_send_to_one idle))
  Refilled-IsBackpressured c r (inr before) (took msg e s left) =
      inr (rw (left, len-push c.unicast_queue (by_priority msg)) before)

  pop_unicast-IsBackpressured :
      (c : Chan D)
      → IsBackpressured c
      → (r : Option (MessageToOne M) × Chan D) → Popped c r
      → IsBackpressured r.1
  unfolding IsBackpressured is_unicast_full
  pop_unicast-IsBackpressured c h r (nothing e same) = rw same h
  pop_unicast-IsBackpressured c h r (popped msg rest perm tops len same) =
      rw same (Refilled-IsBackpressured _ _ (rw len at h) (refill_unicast-Refilled _))

  SameUnicast-IsBackpressured :
      (c d : Chan D) → SameUnicast c d → IsBackpressured c → IsBackpressured d
  unfolding IsBackpressured is_unicast_full
  SameUnicast-IsBackpressured c d s h = rw (s.capacity, s.senders, s.queue) h

  waits-IsBackpressured : (c : Chan D) → IsBackpressured c → IsBackpressured (wait_or_exit c).1
  unfolding wait_or_exit IsBackpressured is_unicast_full
  waits-IsBackpressured c h = elim (Bool-cases (c.sender_count == 0)) [
    | inl e ↦ rw e h
    | inr e ↦ rw e h
  ]

  -- A message more does not make room.
  push_unicast-IsBackpressured :
      (c : Chan D) (msg : MessageToOne M) → IsBackpressured c → IsBackpressured (push_unicast c msg)
  unfolding IsBackpressured is_unicast_full push_unicast
  push_unicast-IsBackpressured c msg (inl idle) = inl idle
  push_unicast-IsBackpressured c msg (inr f) =
      inr (rw (len-push c.unicast_queue (by_priority msg)) (reached-suc c.capacity _ f))

  place_to_one-IsBackpressured :
      (r : Option (MessageToOne M) × Chan D)
      → IsBackpressured r.1
      → IsBackpressured (place_to_one r).1
  unfolding place_to_one IsBackpressured is_unicast_full
  place_to_one-IsBackpressured (none, d) h = h
  place_to_one-IsBackpressured (some m, d) h = elim (Bool-cases (is_unicast_full d)) [
    | inl f ↦ rw f (inr f)
    | inr f ↦ rw f (push_unicast-IsBackpressured d m h)
  ]

  requeue_unfulfilled-IsBackpressured :
      (r : Option (MessageToOne M) × Chan D)
      → IsBackpressured r.1
      → IsBackpressured (requeue_unfulfilled r)
  unfolding requeue_unfulfilled
  requeue_unfulfilled-IsBackpressured (none, d) h = h
  requeue_unfulfilled-IsBackpressured (some m, d) h = push_unicast-IsBackpressured d m h

  fulfilled-IsBackpressured :
      (c : Chan D) (msg : MessageToOne M)
      → IsBackpressured c
      → IsBackpressured (try_fulfill_receiver c msg).1
  fulfilled-IsBackpressured c msg = SameUnicast-IsBackpressured c _ (fulfilled-SameUnicast c msg)

  shutdown-IsBackpressured : (c : Chan D) → IsBackpressured (shutdown_waiting_senders c)
  unfolding shutdown_waiting_senders clear IsBackpressured
  shutdown-IsBackpressured c = inl tt

  receiver_dropped-IsBackpressured :
      (c : Chan D) → IsBackpressured c → IsBackpressured (on_receiver_dropped c)
  unfolding on_receiver_dropped IsBackpressured is_unicast_full
  receiver_dropped-IsBackpressured c h = elim (Bool-cases (c.receiver_count == 1)) [
    | inl e ↦
        rw e
          (shutdown-IsBackpressured (record c { receiver_count = wrapping_dec c.receiver_count }))
    | inr e ↦ rw e h
  ]

  -- Whatever anybody does, in any order.
  Step-IsBackpressured : {c d : Chan D} → Step c d → IsBackpressured c → IsBackpressured d
  unfolding on_sender_created on_receiver_created new_broadcast_mailbox disconnect_listener
      next_broadcast_message shutdown_all_receivers poll_to_one poll_to_all drop_to_one drop_to_all
      set_slot clone_mailbox drop_mailbox IsBackpressured is_unicast_full send_broadcast try_recv
      queue_to_one requeue_message
  Step-IsBackpressured sender_created h = h
  Step-IsBackpressured {c} sender_dropped h =
      SameUnicast-IsBackpressured c _ (on_sender_dropped-SameUnicast c) h
  Step-IsBackpressured receiver_created h = h
  Step-IsBackpressured {c} receiver_dropped h = receiver_dropped-IsBackpressured c h
  Step-IsBackpressured mailbox_created h = h
  Step-IsBackpressured {c} (sends_to_one msg) h =
      place_to_one-IsBackpressured _ (fulfilled-IsBackpressured c msg h)
  Step-IsBackpressured {c} (sends_to_all msg) h =
      SameUnicast-IsBackpressured c _ (queue_to_all-SameUnicast c msg) h
  Step-IsBackpressured {c} (receives b) h =
      try_recv-any IsBackpressured c b (pop_unicast-IsBackpressured c h _ (pop_unicast-Popped c))
        (SameUnicast-IsBackpressured c _
          (PoppedBroadcast-SameUnicast c b _ (pop_broadcast-PoppedBroadcast c b)) h)
        (waits-IsBackpressured c h)
  Step-IsBackpressured stops_all h = h
  Step-IsBackpressured listens h = h
  Step-IsBackpressured {c} (requeues msg) h =
      requeue_unfulfilled-IsBackpressured _ (fulfilled-IsBackpressured c msg h)
  Step-IsBackpressured {c} (takes_broadcast b) h =
      SameUnicast-IsBackpressured c _
        (PoppedBroadcast-SameUnicast c b _ (pop_broadcast-PoppedBroadcast c b)) h
  Step-IsBackpressured {c} (polls_to_one k w) (inl idle) =
      inl (poll_sender-NoneActive c.waiting_send_to_one k w idle)
  Step-IsBackpressured (polls_to_one k w) (inr f) = inr f
  Step-IsBackpressured (polls_to_all k w) h = h
  Step-IsBackpressured {c} (drops_to_one k) (inl idle) =
      inl (drop_sender-NoneActive c.waiting_send_to_one k idle)
  Step-IsBackpressured (drops_to_one k) (inr f) = inr f
  Step-IsBackpressured (drops_to_all k) h = h
  Step-IsBackpressured (polls_slot rx w) h = h
  Step-IsBackpressured (cancels_slot rx) h = h
  Step-IsBackpressured (drops_slot rx) h = h
  Step-IsBackpressured (clones_mailbox b x) h = h
  Step-IsBackpressured (drops_mailbox b) h = h

  Steps-IsBackpressured : {c d : Chan D} → Steps c d → IsBackpressured c → IsBackpressured d
  Steps-IsBackpressured here h = h
  Steps-IsBackpressured (next path s) h = Step-IsBackpressured s (Steps-IsBackpressured path h)

initial : {M : Type 0} (D : Deps M) (capacity : Option ℕ) → IsBackpressured (new D capacity)
unfolding IsBackpressured new WaitingQueue.empty
initial D capacity = inl tt

-- In every state that a new channel can come to, a message for one actor waits outside the mailbox
-- only while the mailbox holds as many messages as its capacity: room in it is never left unused.
pub new-IsBackpressured :
    {M : Type 0} (D : Deps M) (capacity : Option ℕ) {c : Chan D}
    → Steps (new D capacity) c
    → IsBackpressured c
new-IsBackpressured D capacity path = Steps-IsBackpressured path (initial D capacity)
