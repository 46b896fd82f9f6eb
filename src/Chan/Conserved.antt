-- ===== src/Chan/Conserved.antt =====
-- Where the messages for one actor that enter a channel of xtra/src/chan.rs come to, over all steps.
use xtra.Prelude.{
  ℕ, ◌+◌, ◌≡◌, refl, ap, ◌∙◌, inl, inr, Option, arith, Bool-cases, ◌==◌, sum_of, if◌then◌else◌,
  below,
}
use xtra.Std.{wrapping_dec}
use xtra.Envelope.{MessageToOne, to_one_has_priority}
use xtra.BinaryHeap.Laws.{to_list-empty}
use xtra.WaitingReceiver.{cancel}
use xtra.WaitingQueue
use xtra.Chan.State.{Deps, Chan}
use xtra.Chan.Methods.{
  new, on_sender_created, on_receiver_created, on_sender_dropped, on_receiver_dropped,
  new_broadcast_mailbox, disconnect_listener, next_broadcast_message, shutdown_all_receivers,
  shutdown_waiting_senders, try_recv, queue_to_one, queue_to_all, requeue_message,
}
use xtra.Chan.Inner.{try_fulfill_receiver, is_broadcast_full}
use xtra.Chan.Steps.{
  Step, Steps, here, next, poll_to_one, poll_to_all, drop_to_one, drop_to_all, set_slot,
  clone_mailbox, drop_mailbox, sender_created, sender_dropped, receiver_created, receiver_dropped,
  mailbox_created, sends_to_one, sends_to_all, receives, stops_all, listens, requeues,
  takes_broadcast, polls_to_one, polls_to_all, drops_to_one, drops_to_all, polls_slot, cancels_slot,
  drops_slot, clones_mailbox, drops_mailbox,
}
use xtra.Chan.Senders.{IsOrderly, Steps-new-IsOrderly}
use xtra.Chan.Numbered.{IsNumbered, Steps-new-IsNumbered}
use xtra.Chan.Held.{in_cell, in_heap, in_look, held}
use xtra.Chan.Held.Slots.{after_recv-in_look, set_slot-held, try_fulfill_receiver-held}
use xtra.Chan.Held.Senders.{poll_sender-in_queue, drop_sender-in_queue, clear-in_queue}
use xtra.Chan.Held.Popping.{
  in_received, choose-held, place_to_one-held, requeue_unfulfilled-held, pop_broadcast-held,
  send_broadcast-held, shutdown_waiting_receivers-held,
}

module _ {M : Type 0} (w : MessageToOne M → ℕ) {D : Deps M} where
  open D use {oneshot}

  -- What the receiver `rx` holds, if there is one of this number.
  abbrev in_slot : Chan D → ℕ → ℕ
  in_slot c rx = below c.next_slot (λ i. in_look w (oneshot.look (c.slots i))) rx

  abbrev entering : {c d : Chan D} → Step c d → ℕ
  entering (sends_to_one msg) = w msg
  entering (requeues msg) = w msg
  entering _ = 0

  -- To a receiver.
  abbrev handed_out : {c d : Chan D} → Step c d → ℕ
  handed_out {c} (receives b) = in_received w (try_recv c b).0
  handed_out {c} (polls_slot rx v) = in_slot c rx
  handed_out {c} (cancels_slot rx) = in_slot c rx
  handed_out _ = 0

  -- In the mailbox and with the senders in the line.
  abbrev in_store : Chan D → ℕ
  in_store c =
      in_heap w c.unicast_queue
      + sum_of (λ h. in_cell w (c.waiting_send_to_one.cells h)) c.waiting_send_to_one.handles

  -- With the last receiver all that is in the mailbox or waits, and with a future what it holds.
  abbrev lost : {c d : Chan D} → Step c d → ℕ
  lost {c} receiver_dropped = if c.receiver_count == 1 then in_store c else 0
  lost {c} (drops_to_one h) =
      below c.waiting_send_to_one.next_cell (λ i. in_cell w (c.waiting_send_to_one.cells i)) h
  lost {c} (drops_slot rx) = in_slot c rx
  lost _ = 0

  receiver_dropped-held :
      (c : Chan D)
      → IsOrderly c
      → held w (on_receiver_dropped c) + (if c.receiver_count == 1 then in_store c else 0)
        ≡ held w c
  unfolding on_receiver_dropped shutdown_waiting_senders
  receiver_dropped-held c o = elim (Bool-cases (c.receiver_count == 1)) [
    | inl e ↦
        let cleared = clear-in_queue w c.waiting_send_to_one o.to_one in
        rw (e, to_list-empty) (omega (arith, cleared))
    | inr e ↦ rw e (omega arith)
  ]

  sender_dropped-held : (c : Chan D) → held w (on_sender_dropped c) ≡ held w c
  unfolding on_sender_dropped
  sender_dropped-held c = elim (Bool-cases (c.sender_count == 1)) [
    | inl e ↦
        let fewer : Chan D = record c { sender_count = wrapping_dec c.sender_count } in
        rw e (shutdown_waiting_receivers-held w fewer)
    | inr e ↦ rw e refl
  ]

  queue_to_all-held : (c : Chan D) (m : _) → held w (queue_to_all c m).1 ≡ held w c
  unfolding queue_to_all
  queue_to_all-held c m = elim (Bool-cases (is_broadcast_full c)) [
    | inl f ↦ rw f refl
    | inr f ↦ rw f (send_broadcast-held w c m)
  ]

  emptied :
      (c : Chan D) (rx : ℕ) (s : oneshot.State)
      → in_look w (oneshot.look s) ≡ 0
      → held w (set_slot c rx s) + in_slot c rx ≡ held w c
  emptied c rx s e = set_slot-held w c rx s e

  Step-held :
      {c d : Chan D} (s : Step c d)
      → IsOrderly c
      → IsNumbered c
      → held w d + handed_out s + lost s ≡ held w c + entering s
  unfolding on_sender_created on_receiver_created new_broadcast_mailbox disconnect_listener
      next_broadcast_message shutdown_all_receivers poll_to_one poll_to_all drop_to_one drop_to_all
      clone_mailbox drop_mailbox try_recv queue_to_one requeue_message cancel
  Step-held {c} (sends_to_one msg) o n =
      omega (
        arith,
        place_to_one-held w (try_fulfill_receiver c msg),
        try_fulfill_receiver-held w c msg n,
      )
  Step-held {c} (requeues msg) o n = omega (
    arith,
    requeue_unfulfilled-held w (try_fulfill_receiver c msg),
    try_fulfill_receiver-held w c msg n,
  )
  Step-held {c} (receives b) o n = omega (arith, choose-held w _ _ c b o.to_one)
  Step-held {c} receiver_dropped o n = omega (arith, receiver_dropped-held c o)
  Step-held {c} sender_dropped o n = omega (arith, sender_dropped-held c)
  Step-held {c} (sends_to_all m) o n = omega (arith, queue_to_all-held c m)
  Step-held {c} stops_all o n = omega (arith, send_broadcast-held w c _)
  Step-held {c} (takes_broadcast b) o n = omega (arith, pop_broadcast-held w c b)
  Step-held {c} (polls_to_one h v) o n =
      omega (arith, poll_sender-in_queue w c.waiting_send_to_one h v)
  Step-held {c} (drops_to_one h) o n = omega (arith, drop_sender-in_queue w c.waiting_send_to_one h)
  Step-held {c} (polls_slot rx v) o n = omega (
    arith,
    emptied c rx (oneshot.poll (c.slots rx) v).1 (
        ap (in_look w) (oneshot.poll-look (c.slots rx) v)
        ∙ after_recv-in_look w (oneshot.look (c.slots rx))),
  )
  Step-held {c} (cancels_slot rx) o n = omega (
    arith,
    emptied c rx (cancel oneshot (c.slots rx)).1 (
        ap (in_look w) (oneshot.try_recv-look (c.slots rx))
        ∙ after_recv-in_look w (oneshot.look (c.slots rx))),
  )
  Step-held {c} (drops_slot rx) o n = omega (
    arith,
    emptied c rx (oneshot.drop_receiver (c.slots rx))
        (ap (in_look w) (oneshot.drop_receiver-look (c.slots rx))),
  )
  Step-held sender_created o n = omega arith
  Step-held receiver_created o n = omega arith
  Step-held mailbox_created o n = omega arith
  Step-held listens o n = omega arith
  Step-held (polls_to_all h v) o n = omega arith
  Step-held (drops_to_all h) o n = omega arith
  Step-held (clones_mailbox b x) o n = omega arith
  Step-held (drops_mailbox b) o n = omega arith

  abbrev pub total_entered : {c d : Chan D} → Steps c d → ℕ
  total_entered here = 0
  total_entered (next path s) = total_entered path + entering s

  abbrev pub total_handed_out : {c d : Chan D} → Steps c d → ℕ
  total_handed_out here = 0
  total_handed_out (next path s) = total_handed_out path + handed_out s

  abbrev pub total_lost : {c d : Chan D} → Steps c d → ℕ
  total_lost here = 0
  total_lost (next path s) = total_lost path + lost s

module _ {M : Type 0} (w : MessageToOne M → ℕ) (D : Deps M) (capacity : Option ℕ) where
  new-held : held w (new D capacity) ≡ 0
  unfolding new WaitingQueue.empty
  new-held = rw to_list-empty refl

  -- Of the messages for one actor that ever entered a new channel, sent or put back, counted by any
  -- weight: each is with the channel, or was handed out to a receiver, or was lost. A message is
  -- lost only with the last receiver, which empties the mailbox and the line of senders, with a
  -- sender's future that is dropped while it waits, or with a receiver's one-shot channel that is
  -- dropped while it holds one.
  pub total_entered-held :
      {c : Chan D} (path : Steps (new D capacity) c)
      → held w c + total_handed_out w path + total_lost w path ≡ total_entered w path
  total_entered-held here = omega (arith, new-held)
  total_entered-held (next path s) = omega (
    arith,
    total_entered-held path,
    Step-held w s (Steps-new-IsOrderly D capacity path) (Steps-new-IsNumbered D capacity path),
  )
