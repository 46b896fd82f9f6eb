-- ===== src/Chan/Stuck.antt =====
-- A broadcast tail that nobody counts anew, in xtra/src/chan.rs: what follows when the mailbox that lags
-- behind is dropped.
pub mod Always
use xtra.Prelude.{
  ℕ, suc, ◌≡◌, refl, sym, ap, ◌∙◌, subst, ◌⊎◌, inl, inr, Bool, true, false, Option, none, some,
  List, [], ◌∷◌, ◌++◌, arith, All, All-mono, All-append, All-update, All-middle, length, ◌==◌,
  ==_iff, update, ltb, Bool-cases, Ordering,
}
use xtra.Std.{wrapping_dec}
use xtra.BinaryHeap
use xtra.BinaryHeap.Laws.{len-to_list, to_list-empty}
use xtra.Envelope.{MessageToOne, MessageToAll}
use xtra.WaitingQueue
use xtra.Chan.State.{Deps, Chan, Broadcasts}
use xtra.Chan.Inner.{
  reached, push_unicast, is_unicast_full, is_broadcast_full, pop_unicast, pop_broadcast,
  try_take_waiting_unicast_message, try_fulfill_receiver,
}
use xtra.Chan.Inner.Cases.{
  Refilled, full, nobody, took, refill_unicast-Refilled, Popped, nothing, popped,
  pop_unicast-Popped, PoppedBroadcast, pop_broadcast-PoppedBroadcast,
}
use xtra.Chan.Methods.Cases.{try_recv-any}
use xtra.Chan.Broadcast.{exists}
use xtra.Chan.Methods.{
  Sent, mailbox_full, on_sender_created, on_receiver_created, on_sender_dropped,
  on_receiver_dropped, new_broadcast_mailbox, disconnect_listener, next_broadcast_message,
  shutdown_waiting_senders, shutdown_waiting_receivers, try_recv, wait_or_exit, choose,
  queue_to_one, place_to_one, requeue_unfulfilled, queue_to_all, requeue_message,
}
use xtra.Chan.Steps.{
  Step, poll_to_one, poll_to_all, drop_to_one, drop_to_all, set_slot, clone_mailbox, drop_mailbox,
  sender_created, sender_dropped, receiver_created, receiver_dropped, mailbox_created, sends_to_one,
  sends_to_all, receives, stops_all, listens, requeues, takes_broadcast, polls_to_one, polls_to_all,
  drops_to_one, drops_to_all, polls_slot, cancels_slot, drops_slot, clones_mailbox, drops_mailbox,
}

-- `b` stands somewhere in the list.
abbrev pub IsOn : ℕ → List ℕ → Type 0
IsOn b qs = (before : List ℕ) × (after : List ℕ) × (qs ≡ before ++ b ∷ after)

All-IsOn : (P : ℕ → Type 0) (qs : List ℕ) (b : ℕ) → All P qs → IsOn b qs → P b
All-IsOn P qs b all (before, after, e) = (All-middle P before b after (subst (All P) e all)).0

module _ {M : Type 0} where
  -- No message is in the mailbox, if it still exists.
  abbrev pub IsDrained : Broadcasts M → Type 0
  IsDrained b = exists b ≡ true → BinaryHeap.to_list b.queue ≡ []

module _ {M : Type 0} {D : Deps M} where
  -- The tail is at the capacity, though every broadcast mailbox is empty.
  pub record IsStuck (c : Chan D) : Type 0 where
    pub is_full : is_broadcast_full c ≡ true
    pub drained : All (λ q. IsDrained (c.mailboxes q)) c.broadcast_queues

  -- Any step but `shutdown_all_receivers`, by receivers whose mailbox exists and is on the list.
  pub IsOrdinary : {c d : Chan D} → Step c d → Type 0
  IsOrdinary stops_all = ⊥
  IsOrdinary {c} (receives b) = (exists (c.mailboxes b) ≡ true) × IsOn b c.broadcast_queues
  IsOrdinary {c} (takes_broadcast b) = (exists (c.mailboxes b) ≡ true) × IsOn b c.broadcast_queues
  IsOrdinary _ = Unit

  pub record SameRoom (c d : Chan D) : Type 0 where
    capacity : d.capacity ≡ c.capacity
    tail : d.broadcast_tail ≡ c.broadcast_tail
    mailboxes : d.mailboxes ≡ c.mailboxes
    queues : d.broadcast_queues ≡ c.broadcast_queues

  same : (c : Chan D) → SameRoom c c
  same c = record { capacity = refl; tail = refl; mailboxes = refl; queues = refl }

  pub SameRoom-IsStuck : (c d : Chan D) → SameRoom c d → IsStuck c → IsStuck d
  unfolding is_broadcast_full
  SameRoom-IsStuck c d s k = record {
    is_full = rw (s.capacity, s.tail) k.is_full;
    drained = rw (s.mailboxes, s.queues) k.drained;
  }

  Refilled-SameRoom : (c r : Chan D) → Refilled c r → SameRoom c r
  unfolding try_take_waiting_unicast_message push_unicast
  Refilled-SameRoom c r (full e s) = rw s (same c)
  Refilled-SameRoom c r (nobody e w s) =
      rw s (record { capacity = refl; tail = refl; mailboxes = refl; queues = refl })
  Refilled-SameRoom c r (took msg e w s) =
      rw s (record { capacity = refl; tail = refl; mailboxes = refl; queues = refl })

  Popped-IsStuck :
      (c : Chan D) (r : Option (MessageToOne M) × Chan D) → IsStuck c → Popped c r → IsStuck r.1
  unfolding is_broadcast_full
  Popped-IsStuck c r k (nothing e s) = rw s k
  Popped-IsStuck c r k (popped msg rest perm tops len s) = rw s (
      SameRoom-IsStuck (record c { unicast_queue = rest }) _
        (Refilled-SameRoom _ _ (refill_unicast-Refilled _))
        (record { is_full = k.is_full; drained = k.drained }))

  -- From an empty mailbox nothing is taken, and the tail is not counted.
  pub PoppedBroadcast-same :
      (c : Chan D) (b : ℕ) (r : Option (MessageToAll M) × Chan D)
      → BinaryHeap.to_list (c.mailboxes b).queue ≡ []
      → PoppedBroadcast c b r
      → r.1 ≡ c
  PoppedBroadcast-same c b r none_left (PoppedBroadcast.nothing e s) = rw s refl
  PoppedBroadcast-same c b r none_left (PoppedBroadcast.popped msg rest perm tops len s) =
      absurd (omega (arith, len-to_list (c.mailboxes b).queue, ap length none_left))

  waits-SameRoom : (c : Chan D) → SameRoom c (wait_or_exit c).1
  unfolding wait_or_exit
  waits-SameRoom c = ground arith

  pub try_recv-IsStuck :
      (c : Chan D) (b : ℕ)
      → BinaryHeap.to_list (c.mailboxes b).queue ≡ []
      → IsStuck c
      → IsStuck (try_recv c b).1
  try_recv-IsStuck c b none_left k =
      try_recv-any IsStuck c b (Popped-IsStuck c _ k (pop_unicast-Popped c))
        (rw (PoppedBroadcast-same c b _ none_left (pop_broadcast-PoppedBroadcast c b)) k)
        (SameRoom-IsStuck c _ (waits-SameRoom c) k)

  pub on_the_list :
      (c : Chan D) (b : ℕ)
      → IsStuck c
      → (exists (c.mailboxes b) ≡ true) × IsOn b c.broadcast_queues
      → BinaryHeap.to_list (c.mailboxes b).queue ≡ []
  on_the_list c b k (live, on) =
      All-IsOn (λ q. IsDrained (c.mailboxes q)) c.broadcast_queues b k.drained on live

  pub created-IsStuck : (c : Chan D) → IsStuck c → IsStuck (new_broadcast_mailbox c).1
  unfolding new_broadcast_mailbox is_broadcast_full
  created-IsStuck c k = record {
    is_full = k.is_full;
    drained =
        All-append _ c.broadcast_queues (c.next_mailbox ∷ [])
          (All-update IsDrained c.mailboxes c.next_mailbox _ c.broadcast_queues
            (λ h e. to_list-empty _) k.drained)
          (rw ((==_iff c.next_mailbox c.next_mailbox).1 refl) (λ e. to_list-empty _), tt);
  }

  pub receiver_dropped-IsStuck : (c : Chan D) → IsStuck c → IsStuck (on_receiver_dropped c)
  unfolding on_receiver_dropped shutdown_waiting_senders is_broadcast_full
  receiver_dropped-IsStuck c k = elim (Bool-cases (c.receiver_count == 1)) [
    | inl e ↦ rw e (record { is_full = k.is_full; drained = tt })
    | inr e ↦ rw e (record { is_full = k.is_full; drained = k.drained })
  ]

  pub sender_dropped-SameRoom : (c : Chan D) → SameRoom c (on_sender_dropped c)
  unfolding on_sender_dropped shutdown_waiting_receivers
  sender_dropped-SameRoom c = ground arith

  pub place_to_one-SameRoom :
      (r : Option (MessageToOne M) × Chan D) → SameRoom r.1 (place_to_one r).1
  unfolding place_to_one push_unicast
  place_to_one-SameRoom (none, d) = same d
  place_to_one-SameRoom (some m, d) = ground arith

  pub requeue_unfulfilled-SameRoom :
      (r : Option (MessageToOne M) × Chan D) → SameRoom r.1 (requeue_unfulfilled r)
  unfolding requeue_unfulfilled push_unicast
  requeue_unfulfilled-SameRoom (none, d) = same d
  requeue_unfulfilled-SameRoom (some m, d) = record {
    capacity = refl;
    tail = refl;
    mailboxes = refl;
    queues = refl;
  }

  pub fulfilled-SameRoom :
      (c : Chan D) (msg : MessageToOne M) → SameRoom c (try_fulfill_receiver c msg).1
  unfolding try_fulfill_receiver
  fulfilled-SameRoom c msg = record {
    capacity = refl;
    tail = refl;
    mailboxes = refl;
    queues = refl;
  }

  -- A broadcast that is sent waits, as the channel seems full.
  pub queue_to_all-waits :
      (c : Chan D) (m : MessageToAll M)
      → IsStuck c
      → ((queue_to_all c m).0 ≡ mailbox_full c.waiting_send_to_all.next_cell)
        × SameRoom c (queue_to_all c m).1
  unfolding queue_to_all WaitingQueue.push_back
  queue_to_all-waits c m k =
      rw (k.is_full)
        (refl, record { capacity = refl; tail = refl; mailboxes = refl; queues = refl })
