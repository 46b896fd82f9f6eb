-- ===== src/Chan/Numbered.antt =====
-- The line of waiting receivers of xtra/src/chan.rs: each handle in it refers to a receiver that was
-- made.
use xtra.Prelude.{
  ℕ, ◌<◌, inl, inr, Option, Option-cases, none, some, ◌==◌, Bool-cases, All, All-mono, All-append,
  arith, List, ◌∷◌, [],
}
use xtra.Envelope.{MessageToOne, MessageToAll}
use xtra.WaitingReceiver.{notify_new_message}
use xtra.Chan.State.{Deps, Chan}
use xtra.Chan.Inner.{
  push_unicast, is_unicast_full, is_broadcast_full, pop_unicast, pop_broadcast,
  try_take_waiting_unicast_message, try_fulfill_receiver, popped_broadcast, send_broadcast,
  try_take_waiting_broadcast_message, fulfill,
}
use xtra.Chan.Inner.Cases.{
  Refilled, full, nobody, took, refill_unicast-Refilled, nothing, popped, pop_unicast-Popped,
  RefilledBroadcast, refill_broadcast-RefilledBroadcast, PoppedBroadcast,
  pop_broadcast-PoppedBroadcast,
}
use xtra.Chan.Methods.Cases.{try_recv-any}
use xtra.Chan.Methods.{
  new, on_sender_created, on_receiver_created, on_sender_dropped, on_receiver_dropped,
  new_broadcast_mailbox, disconnect_listener, next_broadcast_message, shutdown_all_receivers,
  shutdown_waiting_senders, shutdown_waiting_receivers, try_recv, wait_or_exit, queue_to_one,
  place_to_one, requeue_unfulfilled, queue_to_all, requeue_message,
}
use xtra.Chan.Steps.{
  Step, Steps, here, next, poll_to_one, poll_to_all, drop_to_one, drop_to_all, set_slot,
  clone_mailbox, drop_mailbox, sender_created, sender_dropped, receiver_created, receiver_dropped,
  mailbox_created, sends_to_one, sends_to_all, receives, stops_all, listens, requeues,
  takes_broadcast, polls_to_one, polls_to_all, drops_to_one, drops_to_all, polls_slot, cancels_slot,
  drops_slot, clones_mailbox, drops_mailbox,
}

module _ {M : Type 0} (D : Deps M) (P : ℕ → Type 0) where
  -- Who is still in the line was in it before.
  fulfill-All :
      (handles : List ℕ) (slots : ℕ → D.oneshot.State) (msg : MessageToOne M)
      → All P handles
      → All P (fulfill D handles slots msg).1
  unfolding fulfill notify_new_message
  fulfill-All [] slots msg all = tt
  fulfill-All (rx ∷ rest) slots msg all =
      elim (Option-cases (notify_new_message D.oneshot (slots rx) msg).0) [
        | inl e ↦ rw e all.1
        | inr (m, e) ↦ rw e (fulfill-All rest _ m all.1)
      ]

module _ {M : Type 0} {D : Deps M} where
  abbrev pub IsNumbered : Chan D → Type 0
  IsNumbered c = All (λ rx. rx < c.next_slot) c.waiting_receivers_handles

  Refilled-IsNumbered : (c r : Chan D) → IsNumbered c → Refilled c r → IsNumbered r
  unfolding try_take_waiting_unicast_message push_unicast
  Refilled-IsNumbered c r o (full e s) = rw s o
  Refilled-IsNumbered c r o (nobody e n s) = rw s o
  Refilled-IsNumbered c r o (took msg e n s) = rw s o

  RefilledBroadcast-IsNumbered :
      (c r : Chan D) → IsNumbered c → RefilledBroadcast c r → IsNumbered r
  unfolding try_take_waiting_broadcast_message send_broadcast
  RefilledBroadcast-IsNumbered c r o (RefilledBroadcast.full e s) = rw s o
  RefilledBroadcast-IsNumbered c r o (RefilledBroadcast.nobody e n s) = rw s o
  RefilledBroadcast-IsNumbered c r o (RefilledBroadcast.took m e n s) = rw s tt

  unicast-IsNumbered : (c : Chan D) → IsNumbered c → IsNumbered (pop_unicast c).1
  unicast-IsNumbered c o = elim (pop_unicast-Popped c) [
    | nothing e s ↦ rw s o
    | popped msg rest perm tops len s ↦ rw s (Refilled-IsNumbered _ _ o (refill_unicast-Refilled _))
  ]

  broadcast-IsNumbered : (c : Chan D) (b : ℕ) → IsNumbered c → IsNumbered (pop_broadcast c b).1
  unfolding popped_broadcast
  broadcast-IsNumbered c b o = elim (pop_broadcast-PoppedBroadcast c b) [
    | PoppedBroadcast.nothing e s ↦ rw s o
    | PoppedBroadcast.popped msg rest perm tops len s ↦
        rw s (RefilledBroadcast-IsNumbered _ _ o (refill_broadcast-RefilledBroadcast _))
  ]

  waits-IsNumbered : (c : Chan D) → IsNumbered c → IsNumbered (wait_or_exit c).1
  unfolding wait_or_exit
  waits-IsNumbered c o = elim (Bool-cases (c.sender_count == 0)) [
    | inl e ↦ rw e o
    | inr e ↦ rw e (
        All-append _ c.waiting_receivers_handles (c.next_slot ∷ [])
          (All-mono _ _ c.waiting_receivers_handles (λ x lt. omega arith) o) (omega arith, tt))
  ]

  fulfilled-IsNumbered :
      (c : Chan D) (msg : MessageToOne M) → IsNumbered c → IsNumbered (try_fulfill_receiver c msg).1
  unfolding try_fulfill_receiver
  fulfilled-IsNumbered c msg o = fulfill-All D _ c.waiting_receivers_handles c.slots msg o

  place_to_one-IsNumbered :
      (r : Option (MessageToOne M) × Chan D) → IsNumbered r.1 → IsNumbered (place_to_one r).1
  unfolding place_to_one push_unicast
  place_to_one-IsNumbered (none, d) o = o
  place_to_one-IsNumbered (some m, d) o = elim (Bool-cases (is_unicast_full d)) [
    | inl f ↦ rw f o
    | inr f ↦ rw f o
  ]

  requeue_unfulfilled-IsNumbered :
      (r : Option (MessageToOne M) × Chan D) → IsNumbered r.1 → IsNumbered (requeue_unfulfilled r)
  unfolding requeue_unfulfilled push_unicast
  requeue_unfulfilled-IsNumbered (none, d) o = o
  requeue_unfulfilled-IsNumbered (some m, d) o = o

  queue_to_all-IsNumbered :
      (c : Chan D) (m : MessageToAll M) → IsNumbered c → IsNumbered (queue_to_all c m).1
  unfolding queue_to_all send_broadcast
  queue_to_all-IsNumbered c m o = elim (Bool-cases (is_broadcast_full c)) [
    | inl f ↦ rw f o
    | inr f ↦ rw f tt
  ]

  receiver_dropped-IsNumbered : (c : Chan D) → IsNumbered c → IsNumbered (on_receiver_dropped c)
  unfolding on_receiver_dropped shutdown_waiting_senders
  receiver_dropped-IsNumbered c o = elim (Bool-cases (c.receiver_count == 1)) [
    | inl e ↦ rw e o
    | inr e ↦ rw e o
  ]

  sender_dropped-IsNumbered : (c : Chan D) → IsNumbered c → IsNumbered (on_sender_dropped c)
  unfolding on_sender_dropped shutdown_waiting_receivers
  sender_dropped-IsNumbered c o = elim (Bool-cases (c.sender_count == 1)) [
    | inl e ↦ rw e tt
    | inr e ↦ rw e o
  ]

  Step-IsNumbered : {c d : Chan D} → Step c d → IsNumbered c → IsNumbered d
  unfolding on_sender_created on_receiver_created new_broadcast_mailbox disconnect_listener
      next_broadcast_message shutdown_all_receivers poll_to_one poll_to_all drop_to_one drop_to_all
      set_slot clone_mailbox drop_mailbox send_broadcast try_recv queue_to_one requeue_message
  Step-IsNumbered {c} sender_dropped o = sender_dropped-IsNumbered c o
  Step-IsNumbered {c} receiver_dropped o = receiver_dropped-IsNumbered c o
  Step-IsNumbered {c} (sends_to_one msg) o =
      place_to_one-IsNumbered _ (fulfilled-IsNumbered c msg o)
  Step-IsNumbered {c} (sends_to_all m) o = queue_to_all-IsNumbered c m o
  Step-IsNumbered {c} (receives b) o =
      try_recv-any IsNumbered c b (unicast-IsNumbered c o) (broadcast-IsNumbered c b o)
        (waits-IsNumbered c o)
  Step-IsNumbered stops_all o = tt
  Step-IsNumbered {c} (requeues msg) o =
      requeue_unfulfilled-IsNumbered _ (fulfilled-IsNumbered c msg o)
  Step-IsNumbered {c} (takes_broadcast b) o = broadcast-IsNumbered c b o
  Step-IsNumbered sender_created o = o
  Step-IsNumbered receiver_created o = o
  Step-IsNumbered mailbox_created o = o
  Step-IsNumbered listens o = o
  Step-IsNumbered (polls_to_one h w) o = o
  Step-IsNumbered (polls_to_all h w) o = o
  Step-IsNumbered (drops_to_one h) o = o
  Step-IsNumbered (drops_to_all h) o = o
  Step-IsNumbered (polls_slot rx w) o = o
  Step-IsNumbered (cancels_slot rx) o = o
  Step-IsNumbered (drops_slot rx) o = o
  Step-IsNumbered (clones_mailbox b x) o = o
  Step-IsNumbered (drops_mailbox b) o = o

module _ {M : Type 0} (D : Deps M) (capacity : Option ℕ) where
  new-IsNumbered : IsNumbered (new D capacity)
  unfolding new
  new-IsNumbered = tt

  pub Steps-new-IsNumbered : {c : Chan D} → Steps (new D capacity) c → IsNumbered c
  Steps-new-IsNumbered here = new-IsNumbered
  Steps-new-IsNumbered (next path s) = Step-IsNumbered s (Steps-new-IsNumbered path)
