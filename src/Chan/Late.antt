-- ===== src/Chan/Late.antt =====
-- A message that is put in the mailbox of a channel of xtra/src/chan.rs when the last receiver is gone.
-- `try_send_to_one` checks the connection before it takes the lock, so the last receiver can be dropped
-- in between.
pub mod Unread
use mathlib.Core.List.Perm
use xtra.Prelude.{
  ℕ, ◌≡◌, ◌≢◌, refl, sym, ap, ◌∙◌, subst, inl, inr, Bool, true, false, Option, none, some, List, [],
  ◌∷◌, arith, ◌==◌, ==_iff, Bool-cases, All, All-middle, Perm,
}
use xtra.Priority.{ByPriority, by_priority}
use xtra.BinaryHeap
use xtra.BinaryHeap.Laws.{to_list-push, to_list-empty}
use xtra.Envelope.{MessageToOne, MessageToAll}
use xtra.Chan.State.{Deps, Chan}
use xtra.Chan.Inner.{
  reached, longest_broadcast_queue, push_unicast, is_unicast_full, is_broadcast_full, pop_broadcast,
  popped_broadcast, send_broadcast, try_take_waiting_broadcast_message, try_fulfill_receiver,
}
use xtra.Chan.Inner.Cases.{
  RefilledBroadcast, refill_broadcast-RefilledBroadcast, PoppedBroadcast,
  pop_broadcast-PoppedBroadcast,
}
use xtra.Chan.Fulfill.{
  is_open, NobodyWaits, Placed, handed_over, queued, parked, queue_to_one-Placed,
}
use xtra.Chan.Methods.{
  Sent, accepted, mailbox_full, on_sender_created, on_receiver_created, on_sender_dropped,
  is_connected, on_receiver_dropped, new_broadcast_mailbox, disconnect_listener,
  next_broadcast_message, shutdown_all_receivers, shutdown_waiting_senders,
  shutdown_waiting_receivers, queue_to_one, place_to_one, requeue_unfulfilled, queue_to_all,
  requeue_message,
}
use xtra.Chan.Steps.{
  Step, poll_to_one, poll_to_all, drop_to_one, drop_to_all, set_slot, clone_mailbox, drop_mailbox,
  sender_created, sender_dropped, receiver_created, receiver_dropped, mailbox_created, sends_to_one,
  sends_to_all, receives, stops_all, listens, requeues, takes_broadcast, polls_to_one, polls_to_all,
  drops_to_one, drops_to_all, polls_slot, cancels_slot, drops_slot, clones_mailbox, drops_mailbox,
}

module _ {M : Type 0} {D : Deps M} where
  -- Any step but that a receiver asks for a message, or that there is one more or one less.
  unfoldable pub NoReceiver : {c d : Chan D} → Step c d → Type 0
  NoReceiver receiver_created = ⊥
  NoReceiver receiver_dropped = ⊥
  NoReceiver (receives b) = ⊥
  NoReceiver _ = Unit

  pub data NoReceiverSteps (c : Chan D) : Chan D → Type 0 where
    here : NoReceiverSteps c c
    next :
        {d e : Chan D} → NoReceiverSteps c d → (s : Step d e) → NoReceiver s → NoReceiverSteps c e

  -- `d` has the receivers and the mailbox of `c`.
  record SameMailbox (c d : Chan D) : Type 0 where
    receivers : d.receiver_count ≡ c.receiver_count
    mailbox : d.unicast_queue ≡ c.unicast_queue

  same : (c : Chan D) → SameMailbox c c
  same c = record { receivers = refl; mailbox = refl }

  pop_broadcast-SameMailbox : (c : Chan D) (b : ℕ) → SameMailbox c (pop_broadcast c b).1
  unfolding popped_broadcast try_take_waiting_broadcast_message send_broadcast
  pop_broadcast-SameMailbox c b = elim (pop_broadcast-PoppedBroadcast c b) [
    | PoppedBroadcast.nothing e s ↦ rw s (same c)
    | PoppedBroadcast.popped msg rest perm tops len s ↦
        elim (refill_broadcast-RefilledBroadcast (record (popped_broadcast c b rest) {
          broadcast_tail = longest_broadcast_queue (popped_broadcast c b rest);
        })) [
          | RefilledBroadcast.full f e ↦ rw (s, e) (record { receivers = refl; mailbox = refl })
          | RefilledBroadcast.nobody f e r ↦ rw (s, r) (record { receivers = refl; mailbox = refl })
          | RefilledBroadcast.took m f e r ↦ rw (s, r) (record { receivers = refl; mailbox = refl })
        ]
  ]

  queue_to_all-SameMailbox : (c : Chan D) (m : MessageToAll M) → SameMailbox c (queue_to_all c m).1
  unfolding queue_to_all send_broadcast
  queue_to_all-SameMailbox c m = elim (Bool-cases (is_broadcast_full c)) [
    | inl f ↦ rw f (record { receivers = refl; mailbox = refl })
    | inr f ↦ rw f (record { receivers = refl; mailbox = refl })
  ]

  sender_dropped-SameMailbox : (c : Chan D) → SameMailbox c (on_sender_dropped c)
  unfolding on_sender_dropped shutdown_waiting_receivers
  sender_dropped-SameMailbox c = elim (Bool-cases (c.sender_count == 1)) [
    | inl e ↦ rw e (record { receivers = refl; mailbox = refl })
    | inr e ↦ rw e (record { receivers = refl; mailbox = refl })
  ]

module _ {M : Type 0} {D : Deps M} (msg : MessageToOne M) where
  -- There is no receiver, and the message is in the mailbox.
  pub record IsLeft (c : Chan D) : Type 0 where
    pub no_receivers : c.receiver_count ≡ 0
    pub others : List (ByPriority (MessageToOne M))
    pub left : Perm (BinaryHeap.to_list c.unicast_queue) (by_priority msg ∷ others)

  SameMailbox-IsLeft : (c d : Chan D) → SameMailbox c d → IsLeft c → IsLeft d
  SameMailbox-IsLeft c d s k = record {
    no_receivers = s.receivers ∙ k.no_receivers;
    others = k.others;
    left = rw (s.mailbox) (k.left);
  }

  kept :
      (c d : Chan D)
      → d.receiver_count ≡ c.receiver_count
      → d.unicast_queue ≡ c.unicast_queue
      → IsLeft c
      → IsLeft d
  kept c d r m k = SameMailbox-IsLeft c d (record { receivers = r; mailbox = m }) k

  push_unicast-IsLeft : (c : Chan D) (m : MessageToOne M) → IsLeft c → IsLeft (push_unicast c m)
  unfolding push_unicast
  push_unicast-IsLeft c m k = record {
    no_receivers = k.no_receivers;
    others = by_priority m ∷ k.others;
    left = Perm.trans (to_list-push c.unicast_queue (by_priority m)) (
        Perm.trans (Perm.cons (by_priority m) k.left)
          (Perm.swap (by_priority msg) (by_priority m) k.others));
  }

  place_to_one-IsLeft :
      (r : Option (MessageToOne M) × Chan D) → IsLeft r.1 → IsLeft (place_to_one r).1
  unfolding place_to_one
  place_to_one-IsLeft (none, c) k = k
  place_to_one-IsLeft (some m, c) k = elim (Bool-cases (is_unicast_full c)) [
    | inl f ↦ rw f (kept c _ refl refl k)
    | inr f ↦ rw f (push_unicast-IsLeft c m k)
  ]

  requeue_unfulfilled-IsLeft :
      (r : Option (MessageToOne M) × Chan D) → IsLeft r.1 → IsLeft (requeue_unfulfilled r)
  unfolding requeue_unfulfilled
  requeue_unfulfilled-IsLeft (none, c) k = k
  requeue_unfulfilled-IsLeft (some m, c) k = push_unicast-IsLeft c m k

  fulfilled-IsLeft :
      (c : Chan D) (m : MessageToOne M) → IsLeft c → IsLeft (try_fulfill_receiver c m).1
  unfolding try_fulfill_receiver
  fulfilled-IsLeft c m k = kept c _ refl refl k

  Step-IsLeft : {c d : Chan D} (s : Step c d) → NoReceiver s → IsLeft c → IsLeft d
  unfolding NoReceiver on_sender_created on_receiver_created new_broadcast_mailbox
      disconnect_listener next_broadcast_message shutdown_all_receivers poll_to_one poll_to_all
      drop_to_one drop_to_all set_slot clone_mailbox drop_mailbox send_broadcast queue_to_one
      requeue_message
  Step-IsLeft {c} sender_dropped o k = SameMailbox-IsLeft c _ (sender_dropped-SameMailbox c) k
  Step-IsLeft receiver_created o k = absurd o
  Step-IsLeft receiver_dropped o k = absurd o
  Step-IsLeft (receives b) o k = absurd o
  Step-IsLeft {c} (sends_to_one m) o k = place_to_one-IsLeft _ (fulfilled-IsLeft c m k)
  Step-IsLeft {c} (requeues m) o k = requeue_unfulfilled-IsLeft _ (fulfilled-IsLeft c m k)
  Step-IsLeft {c} (sends_to_all m) o k = SameMailbox-IsLeft c _ (queue_to_all-SameMailbox c m) k
  Step-IsLeft {c} (takes_broadcast b) o k = SameMailbox-IsLeft c _ (pop_broadcast-SameMailbox c b) k
  Step-IsLeft {c} stops_all o k = kept c _ refl refl k
  Step-IsLeft {c} sender_created o k = kept c _ refl refl k
  Step-IsLeft {c} mailbox_created o k = kept c _ refl refl k
  Step-IsLeft {c} listens o k = kept c _ refl refl k
  Step-IsLeft {c} (polls_to_one h w) o k = kept c _ refl refl k
  Step-IsLeft {c} (polls_to_all h w) o k = kept c _ refl refl k
  Step-IsLeft {c} (drops_to_one h) o k = kept c _ refl refl k
  Step-IsLeft {c} (drops_to_all h) o k = kept c _ refl refl k
  Step-IsLeft {c} (polls_slot rx w) o k = kept c _ refl refl k
  Step-IsLeft {c} (cancels_slot rx) o k = kept c _ refl refl k
  Step-IsLeft {c} (drops_slot rx) o k = kept c _ refl refl k
  Step-IsLeft {c} (clones_mailbox b x) o k = kept c _ refl refl k
  Step-IsLeft {c} (drops_mailbox b) o k = kept c _ refl refl k

  pub Steps-IsLeft : {c d : Chan D} → NoReceiverSteps c d → IsLeft c → IsLeft d
  Steps-IsLeft here k = k
  Steps-IsLeft (next path s o) k = Step-IsLeft s o (Steps-IsLeft path k)
