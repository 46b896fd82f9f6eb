-- ===== src/Chan/Stuck/Always.antt =====
-- The induction over the steps of a stuck channel of xtra/src/chan.rs, and what it gives.
use xtra.Prelude.{ℕ, ◌≡◌, ◌⊎◌, inl, inr, true, arith, All, All-mono, All-update, ◌==◌, Bool-cases}
use xtra.Envelope.{MessageToAll}
use xtra.Chan.State.{Deps, Chan}
use xtra.Chan.Inner.{is_broadcast_full}
use xtra.Chan.Inner.Cases.{pop_broadcast-PoppedBroadcast}
use xtra.Chan.Methods.{
  mailbox_full, on_sender_created, on_receiver_created, disconnect_listener, next_broadcast_message,
  try_recv, queue_to_one, queue_to_all, requeue_message,
}
use xtra.Chan.Steps.{
  Step, poll_to_one, poll_to_all, drop_to_one, drop_to_all, set_slot, clone_mailbox, drop_mailbox,
  sender_created, sender_dropped, receiver_created, receiver_dropped, mailbox_created, sends_to_one,
  sends_to_all, receives, stops_all, listens, requeues, takes_broadcast, polls_to_one, polls_to_all,
  drops_to_one, drops_to_all, polls_slot, cancels_slot, drops_slot, clones_mailbox, drops_mailbox,
}
use xtra.Chan.Stuck.{
  IsDrained, IsStuck, IsOrdinary, on_the_list, created-IsStuck, receiver_dropped-IsStuck,
  sender_dropped-SameRoom, place_to_one-SameRoom, requeue_unfulfilled-SameRoom, fulfilled-SameRoom,
  queue_to_all-waits, PoppedBroadcast-same, try_recv-IsStuck, SameRoom-IsStuck,
}

module _ {M : Type 0} {D : Deps M} where
  Step-IsStuck : {c d : Chan D} (s : Step c d) → IsOrdinary s → IsStuck c → IsStuck d
  unfolding IsOrdinary on_sender_created on_receiver_created disconnect_listener
      next_broadcast_message poll_to_one poll_to_all drop_to_one drop_to_all set_slot clone_mailbox
      drop_mailbox try_recv queue_to_one requeue_message is_broadcast_full
  Step-IsStuck sender_created o k = record { is_full = k.is_full; drained = k.drained }
  Step-IsStuck {c} sender_dropped o k = SameRoom-IsStuck c _ (sender_dropped-SameRoom c) k
  Step-IsStuck receiver_created o k = record { is_full = k.is_full; drained = k.drained }
  Step-IsStuck {c} receiver_dropped o k = receiver_dropped-IsStuck c k
  Step-IsStuck {c} mailbox_created o k = created-IsStuck c k
  Step-IsStuck {c} (sends_to_one msg) o k =
      SameRoom-IsStuck _ _ (place_to_one-SameRoom _)
        (SameRoom-IsStuck c _ (fulfilled-SameRoom c msg) k)
  Step-IsStuck {c} (sends_to_all m) o k = SameRoom-IsStuck c _ (queue_to_all-waits c m k).1 k
  Step-IsStuck {c} (receives b) o k = try_recv-IsStuck c b (on_the_list c b k o) k
  Step-IsStuck stops_all o k = absurd o
  Step-IsStuck listens o k = record { is_full = k.is_full; drained = k.drained }
  Step-IsStuck {c} (requeues msg) o k =
      SameRoom-IsStuck _ _ (requeue_unfulfilled-SameRoom _)
        (SameRoom-IsStuck c _ (fulfilled-SameRoom c msg) k)
  Step-IsStuck {c} (takes_broadcast b) o k =
      rw (PoppedBroadcast-same c b _ (on_the_list c b k o) (pop_broadcast-PoppedBroadcast c b)) k
  Step-IsStuck (polls_to_one h w) o k = record { is_full = k.is_full; drained = k.drained }
  Step-IsStuck (polls_to_all h w) o k = record { is_full = k.is_full; drained = k.drained }
  Step-IsStuck (drops_to_one h) o k = record { is_full = k.is_full; drained = k.drained }
  Step-IsStuck (drops_to_all h) o k = record { is_full = k.is_full; drained = k.drained }
  Step-IsStuck (polls_slot rx w) o k = record { is_full = k.is_full; drained = k.drained }
  Step-IsStuck (cancels_slot rx) o k = record { is_full = k.is_full; drained = k.drained }
  Step-IsStuck (drops_slot rx) o k = record { is_full = k.is_full; drained = k.drained }
  Step-IsStuck {c} (clones_mailbox b x) o k = record {
    is_full = k.is_full;
    drained = All-update IsDrained c.mailboxes b _ c.broadcast_queues (λ h e. h x) k.drained;
  }
  Step-IsStuck {c} (drops_mailbox b) o k = record {
    is_full = k.is_full;
    drained =
        All-update IsDrained c.mailboxes b _ c.broadcast_queues (λ h e. h (ground arith)) k.drained;
  }

  -- Ordinary steps, one after another.
  pub data Ordinary (c : Chan D) : Chan D → Type 0 where
    here : Ordinary c c
    next : {d e : Chan D} → Ordinary c d → (s : Step d e) → IsOrdinary s → Ordinary c e

  Ordinary-IsStuck : {c d : Chan D} → Ordinary c d → IsStuck c → IsStuck d
  Ordinary-IsStuck here k = k
  Ordinary-IsStuck (next path s o) k = Step-IsStuck s o (Ordinary-IsStuck path k)

  still-IsDrained :
      (c : Chan D) (b : ℕ)
      → (c.mailboxes b).strong ≡ 1
      → (q : ℕ) → ((b == q) ≡ true) ⊎ IsDrained (c.mailboxes q)
      → IsDrained ((drop_mailbox c b).mailboxes q)
  unfolding drop_mailbox
  still-IsDrained c b one q h = elim (Bool-cases (b == q)) [
    | inl e ↦ rw e (λ x. absurd (ground (arith, one)))
    | inr e ↦ elim h [ inl e' ↦ cc (e, e') | inr drained ↦ rw e drained ]
  ]

  dropped-IsStuck :
      (c : Chan D) (b : ℕ)
      → is_broadcast_full c ≡ true
      → (c.mailboxes b).strong ≡ 1
      → All (λ q. ((b == q) ≡ true) ⊎ IsDrained (c.mailboxes q)) c.broadcast_queues
      → IsStuck (drop_mailbox c b)
  unfolding drop_mailbox is_broadcast_full
  dropped-IsStuck c b f one others = record {
    is_full = f;
    drained = All-mono _ _ c.broadcast_queues (still-IsDrained c b one) others;
  }

  -- When the tail has reached the capacity and the last `Arc` of a broadcast mailbox is dropped, all
  -- others being empty, no mailbox that exists has a message; yet after any ordinary steps a broadcast
  -- that is sent has to wait.
  pub drop_mailbox-waits :
      (c : Chan D) (b : ℕ) (m : MessageToAll M) {d : Chan D}
      → is_broadcast_full c ≡ true
      → (c.mailboxes b).strong ≡ 1
      → All (λ q. ((b == q) ≡ true) ⊎ IsDrained (c.mailboxes q)) c.broadcast_queues
      → Ordinary (drop_mailbox c b) d
      → All (λ q. IsDrained (d.mailboxes q)) d.broadcast_queues
        × ((queue_to_all d m).0 ≡ mailbox_full d.waiting_send_to_all.next_cell)
  drop_mailbox-waits c b m {d} f one others path =
      let k = Ordinary-IsStuck path (dropped-IsStuck c b f one others) in
      (k.drained, (queue_to_all-waits d m k).0)
