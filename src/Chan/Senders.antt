-- ===== src/Chan/Senders.antt =====
-- The two lines of waiting senders of xtra/src/chan.rs over all steps.
use xtra.Prelude.{ℕ, ◌≡◌, inl, inr, false, Option, none, some, ◌⊎◌, ◌==◌, Bool-cases}
use xtra.Std.{wrapping_dec}
use xtra.Envelope.{MessageToOne, MessageToAll, to_one_has_priority, to_all_has_priority}
use xtra.WaitingQueue.Invariant.{
  IsWellFormed, empty-IsWellFormed, push_back-IsWellFormed, poll_sender-IsWellFormed,
  drop_sender-IsWellFormed, clear-IsWellFormed, try_take_waiting_message-IsWellFormed,
}
use xtra.Chan.State.{Deps, Chan}
use xtra.Chan.Inner.{
  push_unicast, is_unicast_full, is_broadcast_full, pop_unicast, pop_broadcast,
  try_take_waiting_unicast_message, try_fulfill_receiver, popped_broadcast, send_broadcast,
  try_take_waiting_broadcast_message,
}
use xtra.Chan.Inner.Cases.{
  Refilled, full, nobody, took, refill_unicast-Refilled, Popped, nothing, popped,
  pop_unicast-Popped, RefilledBroadcast, refill_broadcast-RefilledBroadcast, PoppedBroadcast,
  pop_broadcast-PoppedBroadcast,
}
use xtra.Chan.Methods.Cases.{try_recv-any}
use xtra.Chan.Shutdown.{IsAbandoned, on_receiver_dropped-IsAbandoned}
use xtra.Chan.Methods.{
  new, on_sender_created, on_receiver_created, on_sender_dropped, on_receiver_dropped,
  new_broadcast_mailbox, disconnect_listener, next_broadcast_message, shutdown_all_receivers,
  shutdown_waiting_senders, shutdown_waiting_receivers, try_recv, wait_or_exit, queue_to_one,
  place_to_one, requeue_unfulfilled, queue_to_all, requeue_message,
}
use xtra.Chan.Steps.{
  Step, Steps, here, next, poll_to_one, poll_to_all, drop_to_one, drop_to_all, set_slot,
  clone_mailbox, drop_mailbox, sender_created, sender_dropped, receiver_created, receiver_dropped,
  mailbox_created, sends_to_one, sends_to_all, receives, stops_all, listens, requeues,
  takes_broadcast, polls_to_one, polls_to_all, drops_to_one, drops_to_all, polls_slot, cancels_slot,
  drops_slot, clones_mailbox, drops_mailbox,
}

module _ {M : Type 0} {D : Deps M} where
  -- Both lines of waiting senders are well formed.
  pub record IsOrderly (c : Chan D) : Type 0 where
    pub to_one : IsWellFormed c.waiting_send_to_one
    pub to_all : IsWellFormed c.waiting_send_to_all

  Refilled-IsOrderly : (c r : Chan D) → IsOrderly c → Refilled c r → IsOrderly r
  unfolding try_take_waiting_unicast_message push_unicast
  Refilled-IsOrderly c r o (full e s) = rw s o
  Refilled-IsOrderly c r o (nobody e n s) =
      rw s (record { to_one = try_take_waiting_message-IsWellFormed _ o.to_one; to_all = o.to_all })
  Refilled-IsOrderly c r o (took msg e n s) =
      rw s (record { to_one = try_take_waiting_message-IsWellFormed _ o.to_one; to_all = o.to_all })

  RefilledBroadcast-IsOrderly : (c r : Chan D) → IsOrderly c → RefilledBroadcast c r → IsOrderly r
  unfolding try_take_waiting_broadcast_message send_broadcast
  RefilledBroadcast-IsOrderly c r o (RefilledBroadcast.full e s) = rw s o
  RefilledBroadcast-IsOrderly c r o (RefilledBroadcast.nobody e n s) =
      rw s (record { to_one = o.to_one; to_all = try_take_waiting_message-IsWellFormed _ o.to_all })
  RefilledBroadcast-IsOrderly c r o (RefilledBroadcast.took m e n s) =
      rw s (record { to_one = o.to_one; to_all = try_take_waiting_message-IsWellFormed _ o.to_all })

  Popped-IsOrderly :
      (c : Chan D) (r : Option (MessageToOne M) × Chan D) → IsOrderly c → Popped c r → IsOrderly r.1
  Popped-IsOrderly c r o (nothing e s) = rw s o
  Popped-IsOrderly c r o (popped msg rest perm tops len s) = rw s (
      Refilled-IsOrderly _ _ (record { to_one = o.to_one; to_all = o.to_all })
        (refill_unicast-Refilled _))

  PoppedBroadcast-IsOrderly :
      (c : Chan D) (b : ℕ) (r : Option (MessageToAll M) × Chan D)
      → IsOrderly c
      → PoppedBroadcast c b r
      → IsOrderly r.1
  unfolding popped_broadcast
  PoppedBroadcast-IsOrderly c b r o (PoppedBroadcast.nothing e s) = rw s o
  PoppedBroadcast-IsOrderly c b r o (PoppedBroadcast.popped msg rest perm tops len s) = rw s (
      RefilledBroadcast-IsOrderly _ _ (record { to_one = o.to_one; to_all = o.to_all })
        (refill_broadcast-RefilledBroadcast _))

  waits-IsOrderly : (c : Chan D) → IsOrderly c → IsOrderly (wait_or_exit c).1
  unfolding wait_or_exit
  waits-IsOrderly c o = elim (Bool-cases (c.sender_count == 0)) [
    | inl e ↦ rw e o
    | inr e ↦ rw e (record { to_one = o.to_one; to_all = o.to_all })
  ]

  unicast-IsOrderly : (c : Chan D) → IsOrderly c → IsOrderly (pop_unicast c).1
  unicast-IsOrderly c o = Popped-IsOrderly c _ o (pop_unicast-Popped c)

  broadcast-IsOrderly : (c : Chan D) (b : ℕ) → IsOrderly c → IsOrderly (pop_broadcast c b).1
  broadcast-IsOrderly c b o = PoppedBroadcast-IsOrderly c b _ o (pop_broadcast-PoppedBroadcast c b)

  receiver_dropped-IsOrderly : (c : Chan D) → IsOrderly c → IsOrderly (on_receiver_dropped c)
  unfolding on_receiver_dropped shutdown_waiting_senders
  receiver_dropped-IsOrderly c o = elim (Bool-cases (c.receiver_count == 1)) [
    | inl e ↦ rw e (record {
      to_one = clear-IsWellFormed c.waiting_send_to_one o.to_one;
      to_all = clear-IsWellFormed c.waiting_send_to_all o.to_all;
    })
    | inr e ↦ rw e (record { to_one = o.to_one; to_all = o.to_all })
  ]

  sender_dropped-IsOrderly : (c : Chan D) → IsOrderly c → IsOrderly (on_sender_dropped c)
  unfolding on_sender_dropped shutdown_waiting_receivers
  sender_dropped-IsOrderly c o = elim (Bool-cases (c.sender_count == 1)) [
    | inl e ↦ rw e (record { to_one = o.to_one; to_all = o.to_all })
    | inr e ↦ rw e (record { to_one = o.to_one; to_all = o.to_all })
  ]

  fulfilled-IsOrderly :
      (c : Chan D) (msg : MessageToOne M) → IsOrderly c → IsOrderly (try_fulfill_receiver c msg).1
  unfolding try_fulfill_receiver
  fulfilled-IsOrderly c msg o = record { to_one = o.to_one; to_all = o.to_all }

  place_to_one-IsOrderly :
      (r : Option (MessageToOne M) × Chan D) → IsOrderly r.1 → IsOrderly (place_to_one r).1
  unfolding place_to_one push_unicast
  place_to_one-IsOrderly (none, d) o = o
  place_to_one-IsOrderly (some m, d) o = elim (Bool-cases (is_unicast_full d)) [
    | inl f ↦ rw f (record {
      to_one = push_back-IsWellFormed d.waiting_send_to_one m o.to_one;
      to_all = o.to_all;
    })
    | inr f ↦ rw f (record { to_one = o.to_one; to_all = o.to_all })
  ]

  requeue_unfulfilled-IsOrderly :
      (r : Option (MessageToOne M) × Chan D) → IsOrderly r.1 → IsOrderly (requeue_unfulfilled r)
  unfolding requeue_unfulfilled push_unicast
  requeue_unfulfilled-IsOrderly (none, d) o = o
  requeue_unfulfilled-IsOrderly (some m, d) o = record { to_one = o.to_one; to_all = o.to_all }

  queue_to_all-IsOrderly :
      (c : Chan D) (m : MessageToAll M) → IsOrderly c → IsOrderly (queue_to_all c m).1
  unfolding queue_to_all send_broadcast
  queue_to_all-IsOrderly c m o = elim (Bool-cases (is_broadcast_full c)) [
    | inl f ↦ rw f (record {
      to_one = o.to_one;
      to_all = push_back-IsWellFormed c.waiting_send_to_all m o.to_all;
    })
    | inr f ↦ rw f (record { to_one = o.to_one; to_all = o.to_all })
  ]

  Step-IsOrderly : {c d : Chan D} → Step c d → IsOrderly c → IsOrderly d
  unfolding on_sender_created on_receiver_created new_broadcast_mailbox disconnect_listener
      next_broadcast_message shutdown_all_receivers poll_to_one poll_to_all drop_to_one drop_to_all
      set_slot clone_mailbox drop_mailbox send_broadcast try_recv queue_to_one requeue_message
  Step-IsOrderly sender_created o = record { to_one = o.to_one; to_all = o.to_all }
  Step-IsOrderly {c} sender_dropped o = sender_dropped-IsOrderly c o
  Step-IsOrderly receiver_created o = record { to_one = o.to_one; to_all = o.to_all }
  Step-IsOrderly {c} receiver_dropped o = receiver_dropped-IsOrderly c o
  Step-IsOrderly mailbox_created o = record { to_one = o.to_one; to_all = o.to_all }
  Step-IsOrderly {c} (sends_to_one msg) o = place_to_one-IsOrderly _ (fulfilled-IsOrderly c msg o)
  Step-IsOrderly {c} (sends_to_all m) o = queue_to_all-IsOrderly c m o
  Step-IsOrderly {c} (receives b) o =
      try_recv-any IsOrderly c b (unicast-IsOrderly c o) (broadcast-IsOrderly c b o)
        (waits-IsOrderly c o)
  Step-IsOrderly stops_all o = record { to_one = o.to_one; to_all = o.to_all }
  Step-IsOrderly listens o = record { to_one = o.to_one; to_all = o.to_all }
  Step-IsOrderly {c} (requeues msg) o =
      requeue_unfulfilled-IsOrderly _ (fulfilled-IsOrderly c msg o)
  Step-IsOrderly {c} (takes_broadcast b) o = broadcast-IsOrderly c b o
  Step-IsOrderly {c} (polls_to_one h w) o = record {
    to_one = poll_sender-IsWellFormed c.waiting_send_to_one h w o.to_one;
    to_all = o.to_all;
  }
  Step-IsOrderly {c} (polls_to_all h w) o = record {
    to_one = o.to_one;
    to_all = poll_sender-IsWellFormed c.waiting_send_to_all h w o.to_all;
  }
  Step-IsOrderly {c} (drops_to_one h) o = record {
    to_one = drop_sender-IsWellFormed c.waiting_send_to_one h o.to_one;
    to_all = o.to_all;
  }
  Step-IsOrderly {c} (drops_to_all h) o = record {
    to_one = o.to_one;
    to_all = drop_sender-IsWellFormed c.waiting_send_to_all h o.to_all;
  }
  Step-IsOrderly (polls_slot rx w) o = record { to_one = o.to_one; to_all = o.to_all }
  Step-IsOrderly (cancels_slot rx) o = record { to_one = o.to_one; to_all = o.to_all }
  Step-IsOrderly (drops_slot rx) o = record { to_one = o.to_one; to_all = o.to_all }
  Step-IsOrderly (clones_mailbox b x) o = record { to_one = o.to_one; to_all = o.to_all }
  Step-IsOrderly (drops_mailbox b) o = record { to_one = o.to_one; to_all = o.to_all }

  Steps-IsOrderly : {c d : Chan D} → Steps c d → IsOrderly c → IsOrderly d
  Steps-IsOrderly here o = o
  Steps-IsOrderly (next path s) o = Step-IsOrderly s (Steps-IsOrderly path o)

new-IsOrderly : {M : Type 0} (D : Deps M) (capacity : Option ℕ) → IsOrderly (new D capacity)
unfolding new
new-IsOrderly D capacity = record { to_one = empty-IsWellFormed; to_all = empty-IsWellFormed }

module _ {M : Type 0} (D : Deps M) (capacity : Option ℕ) {c : Chan D} where
  -- In every state that a new channel can come to, the handles in both lines of waiting senders are
  -- distinct, each one whose sender still exists can give its message, and no sender that still
  -- exists and has a message to give is without a handle in its line.
  pub Steps-new-IsOrderly : Steps (new D capacity) c → IsOrderly c
  Steps-new-IsOrderly path = Steps-IsOrderly path (new-IsOrderly D capacity)

  -- In every state that a new channel can come to: when the last receiver is dropped, the channel is
  -- not connected any more, its mailboxes are empty, and every sender that is still there and pending
  -- and every listener learns that it is disconnected. When any other receiver is dropped, nothing
  -- but the count changes.
  pub last_receiver-IsAbandoned :
      Steps (new D capacity) c
      → ((c.receiver_count ≡ 1) × IsAbandoned c (on_receiver_dropped c))
        ⊎ (((c.receiver_count == 1) ≡ false)
            × (on_receiver_dropped c ≡ record c { receiver_count = wrapping_dec c.receiver_count }))
  last_receiver-IsAbandoned path =
      let o = Steps-new-IsOrderly path in on_receiver_dropped-IsAbandoned c o.to_one o.to_all
