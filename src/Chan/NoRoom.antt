-- ===== src/Chan/NoRoom.antt =====
-- A channel of xtra/src/chan.rs with the capacity 0: room for a waiting sender is made only by a message
-- that is popped, and none is.
pub mod Parked
use xtra.Prelude.{
  ℕ, suc, ◌<◌, ◌≡◌, refl, sym, ap, ◌∙◌, inl, inr, Bool, true, false, Option, none, some, arith,
  ◌==◌, ==_iff, update, Bool-cases, Ordering,
}
use xtra.Std.{wrapping_dec, Waker, pending}
use xtra.Envelope.{MessageToOne, MessageToAll}
use xtra.WaitingSender
use xtra.WaitingSender.{Cell, take_message}
use xtra.WaitingQueue
use xtra.Chan.State.{Deps, Chan}
use xtra.Chan.Inner.{
  push_unicast, is_unicast_full, is_broadcast_full, pop_unicast, pop_broadcast, popped_broadcast,
  send_broadcast, try_take_waiting_broadcast_message, try_fulfill_receiver,
}
use xtra.Chan.Inner.Cases.{
  full, nobody, took, refill_unicast-Refilled, nothing, popped, pop_unicast-Popped,
  RefilledBroadcast, refill_broadcast-RefilledBroadcast, PoppedBroadcast,
  pop_broadcast-PoppedBroadcast,
}
use xtra.Chan.Methods.Cases.{try_recv-any}
use xtra.Chan.Methods.{
  Sent, accepted, mailbox_full, new, on_sender_created, on_receiver_created, on_sender_dropped,
  on_receiver_dropped, new_broadcast_mailbox, disconnect_listener, next_broadcast_message,
  shutdown_all_receivers, shutdown_waiting_senders, shutdown_waiting_receivers, try_recv,
  wait_or_exit, choose, queue_to_one, place_to_one, requeue_unfulfilled, queue_to_all,
  requeue_message,
}
use xtra.Chan.Steps.{
  Step, Steps, poll_to_one, poll_to_all, drop_to_one, drop_to_all, set_slot, clone_mailbox,
  drop_mailbox, sender_created, sender_dropped, receiver_created, receiver_dropped, mailbox_created,
  sends_to_one, sends_to_all, receives, stops_all, listens, requeues, takes_broadcast, polls_to_one,
  polls_to_all, drops_to_one, drops_to_all, polls_slot, cancels_slot, drops_slot, clones_mailbox,
  drops_mailbox,
}

module _ {M : Type 0} {D : Deps M} where
  -- `d` has the capacity and the line of senders of `c`.
  pub record SameLine (c d : Chan D) : Type 0 where
    pub capacity : d.capacity ≡ c.capacity
    pub line : d.waiting_send_to_one ≡ c.waiting_send_to_one

  pub same : (c : Chan D) → SameLine c c
  same c = record { capacity = refl; line = refl }

  pub follows : (c d e : Chan D) → SameLine c d → SameLine d e → SameLine c e
  follows c d e s t = record { capacity = t.capacity ∙ s.capacity; line = t.line ∙ s.line }

  pub no_room-full : (c : Chan D) → c.capacity ≡ some 0 → is_unicast_full c ≡ true
  unfolding is_unicast_full
  no_room-full c e = rw e (ground arith)

  pop_unicast-SameLine : (c : Chan D) → c.capacity ≡ some 0 → SameLine c (pop_unicast c).1
  pop_unicast-SameLine c no_room = elim (pop_unicast-Popped c) [
    | nothing e s ↦ rw s (same c)
    | popped msg rest perm tops len s ↦
        let c' : Chan D = record c { unicast_queue = rest } in
        elim (refill_unicast-Refilled c') [
          | full f e ↦ rw (s, e) (record { capacity = refl; line = refl })
          | nobody f e r ↦ cc (f, no_room-full c' no_room)
          | took m f e r ↦ cc (f, no_room-full c' no_room)
        ]
  ]

  RefilledBroadcast-SameLine : (c r : Chan D) → RefilledBroadcast c r → SameLine c r
  unfolding try_take_waiting_broadcast_message send_broadcast
  RefilledBroadcast-SameLine c r (RefilledBroadcast.full e s) = rw s (same c)
  RefilledBroadcast-SameLine c r (RefilledBroadcast.nobody e n s) =
      rw s (record { capacity = refl; line = refl })
  RefilledBroadcast-SameLine c r (RefilledBroadcast.took m e n s) =
      rw s (record { capacity = refl; line = refl })

  pub pop_broadcast-SameLine : (c : Chan D) (b : ℕ) → SameLine c (pop_broadcast c b).1
  unfolding popped_broadcast
  pop_broadcast-SameLine c b = elim (pop_broadcast-PoppedBroadcast c b) [
    | PoppedBroadcast.nothing e s ↦ rw s (same c)
    | PoppedBroadcast.popped msg rest perm tops len s ↦
        let r = RefilledBroadcast-SameLine _ _ (refill_broadcast-RefilledBroadcast _) in
        rw s (record { capacity = r.capacity; line = r.line })
  ]

  wait_or_exit-SameLine : (c : Chan D) → SameLine c (wait_or_exit c).1
  unfolding wait_or_exit
  wait_or_exit-SameLine c = elim (Bool-cases (c.sender_count == 0)) [
    | inl e ↦ rw e (same c)
    | inr e ↦ rw e (record { capacity = refl; line = refl })
  ]

  pub try_recv-SameLine : (c : Chan D) (b : ℕ) → c.capacity ≡ some 0 → SameLine c (try_recv c b).1
  try_recv-SameLine c b no_room =
      try_recv-any (SameLine c) c b (pop_unicast-SameLine c no_room) (pop_broadcast-SameLine c b)
        (wait_or_exit-SameLine c)

  pub fulfilled-SameLine :
      (c : Chan D) (msg : MessageToOne M) → SameLine c (try_fulfill_receiver c msg).1
  unfolding try_fulfill_receiver
  fulfilled-SameLine c msg = record { capacity = refl; line = refl }

  pub requeue_unfulfilled-SameLine :
      (r : Option (MessageToOne M) × Chan D) → SameLine r.1 (requeue_unfulfilled r)
  unfolding requeue_unfulfilled push_unicast
  requeue_unfulfilled-SameLine (none, d) = same d
  requeue_unfulfilled-SameLine (some m, d) = record { capacity = refl; line = refl }

  pub queue_to_all-SameLine : (c : Chan D) (m : MessageToAll M) → SameLine c (queue_to_all c m).1
  unfolding queue_to_all send_broadcast
  queue_to_all-SameLine c m = elim (Bool-cases (is_broadcast_full c)) [
    | inl f ↦ rw f (record { capacity = refl; line = refl })
    | inr f ↦ rw f (record { capacity = refl; line = refl })
  ]

  pub sender_dropped-SameLine : (c : Chan D) → SameLine c (on_sender_dropped c)
  unfolding on_sender_dropped shutdown_waiting_receivers
  sender_dropped-SameLine c = elim (Bool-cases (c.sender_count == 1)) [
    | inl e ↦ rw e (record { capacity = refl; line = refl })
    | inr e ↦ rw e (record { capacity = refl; line = refl })
  ]

  pub receiver_dropped-SameLine :
      (c : Chan D) → (c.receiver_count == 1) ≡ false → SameLine c (on_receiver_dropped c)
  unfolding on_receiver_dropped
  receiver_dropped-SameLine c e = rw e (record { capacity = refl; line = refl })
