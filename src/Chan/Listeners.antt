-- ===== src/Chan/Listeners.antt =====
-- The listeners of a channel of xtra/src/chan.rs over all steps.
use xtra.Prelude.{ℕ, ◌≡◌, refl, ◌∙◌, inl, inr, true, Option, none, some, arith, ◌==◌, Bool-cases}
use xtra.Envelope.{MessageToOne, MessageToAll}
use xtra.Deps.{EventListeners}
use xtra.Chan.State.{Deps, Chan}
use xtra.Chan.Inner.{
  push_unicast, try_take_waiting_unicast_message, try_fulfill_receiver, popped_broadcast,
  send_broadcast, try_take_waiting_broadcast_message,
}
use xtra.Chan.Inner.Cases.{
  Refilled, full, nobody, took, refill_unicast-Refilled, Popped, nothing, popped,
  pop_unicast-Popped, RefilledBroadcast, refill_broadcast-RefilledBroadcast, PoppedBroadcast,
  pop_broadcast-PoppedBroadcast,
}
use xtra.Chan.Methods.Cases.{try_recv-any}
use xtra.Chan.Methods.{
  on_sender_created, on_receiver_created, on_sender_dropped, on_receiver_dropped,
  new_broadcast_mailbox, disconnect_listener, next_broadcast_message, shutdown_all_receivers,
  shutdown_waiting_senders, shutdown_waiting_receivers, try_recv, wait_or_exit, queue_to_one,
  place_to_one, requeue_unfulfilled, queue_to_all, requeue_message,
}
use xtra.Chan.Steps.{
  Step, Steps, here, next, poll_to_one, poll_to_all, drop_to_one, drop_to_all, set_slot,
  clone_mailbox, drop_mailbox, sender_created, sender_dropped, receiver_created, receiver_dropped,
  mailbox_created, sends_to_one, sends_to_all, receives, stops_all, listens, requeues,
  takes_broadcast, polls_to_one, polls_to_all, drops_to_one, drops_to_all, polls_slot, cancels_slot,
  drops_slot, clones_mailbox, drops_mailbox,
}

module _ (events : EventListeners) where
  -- `i` is a listener, and it is notified if it was.
  pub record Keeps (e e' : events.Event) (i : ℕ) : Type 0 where
    pub listening : events.listening e' i ≡ true
    pub notified : events.notified e i ≡ true → events.notified e' i ≡ true

  pub same-Keeps :
      (e e' : events.Event) (i : ℕ) → events.listening e i ≡ true → e' ≡ e → Keeps e e' i
  same-Keeps e e' i l s = rw s (record { listening = l; notified = λ n. n })

module _ {M : Type 0} {D : Deps M} where
  open D use {events}

  Refilled-event : (c r : Chan D) → Refilled c r → r.on_shutdown ≡ c.on_shutdown
  unfolding try_take_waiting_unicast_message push_unicast
  Refilled-event c r (full e s) = rw s
  Refilled-event c r (nobody e n s) = rw s
  Refilled-event c r (took msg e n s) = rw s

  RefilledBroadcast-event : (c r : Chan D) → RefilledBroadcast c r → r.on_shutdown ≡ c.on_shutdown
  unfolding try_take_waiting_broadcast_message send_broadcast
  RefilledBroadcast-event c r (RefilledBroadcast.full e s) = rw s
  RefilledBroadcast-event c r (RefilledBroadcast.nobody e n s) = rw s
  RefilledBroadcast-event c r (RefilledBroadcast.took m e n s) = rw s

  Popped-event :
      (c : Chan D) (r : Option (MessageToOne M) × Chan D)
      → Popped c r
      → r.1.on_shutdown ≡ c.on_shutdown
  Popped-event c r (nothing e s) = rw s
  Popped-event c r (popped msg rest perm tops len s) =
      rw s (Refilled-event (record c { unicast_queue = rest }) _ (refill_unicast-Refilled _))

  PoppedBroadcast-event :
      (c : Chan D) (b : ℕ) (r : Option (MessageToAll M) × Chan D)
      → PoppedBroadcast c b r
      → r.1.on_shutdown ≡ c.on_shutdown
  unfolding popped_broadcast
  PoppedBroadcast-event c b r (PoppedBroadcast.nothing e s) = rw s
  PoppedBroadcast-event c b r (PoppedBroadcast.popped msg rest perm tops len s) =
      rw s (RefilledBroadcast-event _ _ (refill_broadcast-RefilledBroadcast _))

  waits-event : (c : Chan D) → (wait_or_exit c).1.on_shutdown ≡ c.on_shutdown
  unfolding wait_or_exit
  waits-event c = ground arith

  try_recv-event : (c : Chan D) (b : ℕ) → (try_recv c b).1.on_shutdown ≡ c.on_shutdown
  try_recv-event c b =
      try_recv-any (λ d. d.on_shutdown ≡ c.on_shutdown) c b
        (Popped-event c _ (pop_unicast-Popped c))
        (PoppedBroadcast-event c b _ (pop_broadcast-PoppedBroadcast c b)) (waits-event c)

  place_to_one-event :
      (r : Option (MessageToOne M) × Chan D) → (place_to_one r).1.on_shutdown ≡ r.1.on_shutdown
  unfolding place_to_one push_unicast
  place_to_one-event (none, d) = refl
  place_to_one-event (some m, d) = ground arith

  requeue_unfulfilled-event :
      (r : Option (MessageToOne M) × Chan D) → (requeue_unfulfilled r).on_shutdown ≡ r.1.on_shutdown
  unfolding requeue_unfulfilled push_unicast
  requeue_unfulfilled-event (none, d) = refl
  requeue_unfulfilled-event (some m, d) = refl

  fulfilled-event :
      (c : Chan D) (msg : MessageToOne M)
      → (try_fulfill_receiver c msg).1.on_shutdown ≡ c.on_shutdown
  unfolding try_fulfill_receiver
  fulfilled-event c msg = refl

  receiver_dropped-Keeps :
      (c : Chan D) (i : ℕ)
      → events.listening c.on_shutdown i ≡ true
      → Keeps events c.on_shutdown (on_receiver_dropped c).on_shutdown i
  unfolding on_receiver_dropped shutdown_waiting_senders
  receiver_dropped-Keeps c i l = elim (Bool-cases (c.receiver_count == 1)) [
    | inl e ↦
        let (l', n') = events.notify_all-notified c.on_shutdown i l in
        rw e (record { listening = l'; notified = λ n. n' })
    | inr e ↦ rw e (record { listening = l; notified = λ n. n })
  ]

  sender_dropped-event : (c : Chan D) → (on_sender_dropped c).on_shutdown ≡ c.on_shutdown
  unfolding on_sender_dropped shutdown_waiting_receivers
  sender_dropped-event c = ground arith

  queue_to_all-event :
      (c : Chan D) (m : MessageToAll M) → (queue_to_all c m).1.on_shutdown ≡ c.on_shutdown
  unfolding queue_to_all send_broadcast
  queue_to_all-event c m = ground arith

  pub Step-Keeps :
      {c d : Chan D} (i : ℕ)
      → Step c d
      → events.listening c.on_shutdown i ≡ true
      → Keeps events c.on_shutdown d.on_shutdown i
  unfolding on_sender_created on_receiver_created new_broadcast_mailbox disconnect_listener
      next_broadcast_message shutdown_all_receivers poll_to_one poll_to_all drop_to_one drop_to_all
      set_slot clone_mailbox drop_mailbox send_broadcast try_recv queue_to_one requeue_message
  Step-Keeps {c} i sender_created l = same-Keeps events _ _ i l refl
  Step-Keeps {c} i sender_dropped l = same-Keeps events _ _ i l (sender_dropped-event c)
  Step-Keeps {c} i receiver_created l = same-Keeps events _ _ i l refl
  Step-Keeps {c} i receiver_dropped l = receiver_dropped-Keeps c i l
  Step-Keeps {c} i mailbox_created l = same-Keeps events _ _ i l refl
  Step-Keeps {c} i (sends_to_one msg) l =
      same-Keeps events _ _ i l (place_to_one-event _ ∙ fulfilled-event c msg)
  Step-Keeps {c} i (sends_to_all m) l = same-Keeps events _ _ i l (queue_to_all-event c m)
  Step-Keeps {c} i (receives b) l = same-Keeps events _ _ i l (try_recv-event c b)
  Step-Keeps {c} i stops_all l = same-Keeps events _ _ i l refl
  Step-Keeps {c} i listens l =
      let (l', n') = events.listen-keeps c.on_shutdown i l in
      record { listening = l'; notified = λ n. n' ∙ n }
  Step-Keeps {c} i (requeues msg) l =
      same-Keeps events _ _ i l (requeue_unfulfilled-event _ ∙ fulfilled-event c msg)
  Step-Keeps {c} i (takes_broadcast b) l =
      same-Keeps events _ _ i l (PoppedBroadcast-event c b _ (pop_broadcast-PoppedBroadcast c b))
  Step-Keeps {c} i (polls_to_one h w) l = same-Keeps events _ _ i l refl
  Step-Keeps {c} i (polls_to_all h w) l = same-Keeps events _ _ i l refl
  Step-Keeps {c} i (drops_to_one h) l = same-Keeps events _ _ i l refl
  Step-Keeps {c} i (drops_to_all h) l = same-Keeps events _ _ i l refl
  Step-Keeps {c} i (polls_slot x w) l = same-Keeps events _ _ i l refl
  Step-Keeps {c} i (cancels_slot x) l = same-Keeps events _ _ i l refl
  Step-Keeps {c} i (drops_slot x) l = same-Keeps events _ _ i l refl
  Step-Keeps {c} i (clones_mailbox b e) l = same-Keeps events _ _ i l refl
  Step-Keeps {c} i (drops_mailbox b) l = same-Keeps events _ _ i l refl

  pub Steps-Keeps :
      {c d : Chan D} (i : ℕ)
      → Steps c d
      → events.listening c.on_shutdown i ≡ true
      → Keeps events c.on_shutdown d.on_shutdown i
  Steps-Keeps i here l = record { listening = l; notified = λ n. n }
  Steps-Keeps i (next path s) l =
      let k = Steps-Keeps i path l in
      let k' = Step-Keeps i s k.listening in
      record { listening = k'.listening; notified = λ n. k'.notified (k.notified n) }

  pub last_receiver-notified :
      (c : Chan D) (i : ℕ)
      → c.receiver_count ≡ 1
      → events.listening c.on_shutdown i ≡ true
      → (events.listening (on_receiver_dropped c).on_shutdown i ≡ true)
        × (events.notified (on_receiver_dropped c).on_shutdown i ≡ true)
  unfolding on_receiver_dropped shutdown_waiting_senders
  last_receiver-notified c i one l = rw one (events.notify_all-notified c.on_shutdown i l)
