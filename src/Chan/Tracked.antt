-- ===== src/Chan/Tracked.antt =====
-- The broadcast mailboxes of xtra/src/chan.rs over all steps: no mailbox is longer than the tail, and
-- the tail does not wrap around.
use xtra.Prelude.{
  ℕ, suc, ◌≤◌, ◌<◌, ◌≡◌, refl, ap, inl, inr, true, Option, List, [], ◌∷◌, arith, All-mono,
  All-append, All-update, All-update_apart, Distinct-snoc, ◌==◌, ==_iff, length, ◌∙◌, update,
  Bool-cases,
}
use xtra.Std.{usize_mod}
use xtra.Priority.{ByPriority}
use xtra.BinaryHeap
use xtra.BinaryHeap.{BinaryHeap}
use xtra.BinaryHeap.Laws.{len-to_list, to_list-empty}
use xtra.Envelope.{MessageToOne, MessageToAll}
use xtra.WaitingQueue.Invariant.{below-apart}
use xtra.Chan.State.{Deps, Chan, Broadcasts}
use xtra.Chan.Inner.{
  is_broadcast_full, try_fulfill_receiver, popped_broadcast, try_take_waiting_broadcast_message,
  longest_broadcast_queue,
}
use xtra.Chan.Inner.Cases.{
  refill_unicast-Refilled, Popped, nothing, popped, pop_unicast-Popped, RefilledBroadcast,
  refill_broadcast-RefilledBroadcast, PoppedBroadcast, pop_broadcast-PoppedBroadcast,
}
use xtra.Chan.Methods.Cases.{try_recv-any}
use xtra.Chan.Broadcast.{exists}
use xtra.Chan.Tail.{IsListed, IsTracked, send_broadcast-IsTracked, longest-le, longest-Below}
use xtra.Chan.Methods.{
  try_recv, on_receiver_dropped, new_broadcast_mailbox, shutdown_waiting_senders, wait_or_exit,
  queue_to_all,
}
use xtra.Chan.SameBroadcast.{SameBroadcast, Refilled-SameBroadcast}

len-empty : (A : Type 0) → BinaryHeap.len (BinaryHeap.empty {A = A}) ≡ 0
len-empty A = len-to_list BinaryHeap.empty ∙ ap length (to_list-empty A)

module _ {M : Type 0} where
  -- A change of one mailbox that does not make it longer.
  pub shorter-IsListed :
      (t made : ℕ) (mailboxes : ℕ → Broadcasts M) (qs : List ℕ) (b : ℕ) (b' : Broadcasts M)
      → (exists b' ≡ true → exists (mailboxes b) ≡ true)
      → BinaryHeap.len b'.queue ≤ BinaryHeap.len (mailboxes b).queue
      → IsListed t made mailboxes qs
      → IsListed t made (update mailboxes b b') qs
  shorter-IsListed t made mailboxes qs b b' was le l = record {
    numbered = l.numbered;
    distinct = l.distinct;
    below =
        All-update (λ x. exists x ≡ true → BinaryHeap.len x.queue ≤ t) mailboxes b b' qs
          (λ h e. omega (arith, le, h (was e))) l.below;
  }

module _ {M : Type 0} {D : Deps M} where
  pub weaker : (n : ℕ) (c : Chan D) → IsTracked n c → IsTracked (suc n) c
  weaker n c t = record { listed = t.listed; small = omega (arith, t.small) }

  pub SameBroadcast-IsTracked :
      (n : ℕ) (c d : Chan D) → SameBroadcast c d → IsTracked n c → IsTracked n d
  SameBroadcast-IsTracked n c d s t = record {
    listed = rw (s.tail, s.next, s.mailboxes, s.queues) t.listed;
    small = rw s.tail t.small;
  }

  Refilled-IsTracked :
      (c r : Chan D) (n : ℕ)
      → suc n < usize_mod
      → IsTracked n c
      → RefilledBroadcast c r
      → IsTracked (suc n) r
  unfolding try_take_waiting_broadcast_message
  Refilled-IsTracked c r n small t (RefilledBroadcast.full e s) = rw s (weaker n c t)
  Refilled-IsTracked c r n small t (RefilledBroadcast.nobody e w s) =
      rw s (record { listed = t.listed; small = omega (arith, t.small) })
  Refilled-IsTracked c r n small t (RefilledBroadcast.took m e w s) = rw s (
      send_broadcast-IsTracked (try_take_waiting_broadcast_message c).1 m n small
        (record { listed = t.listed; small = t.small }))

  popped-IsTracked :
      (c : Chan D) (b n : ℕ) (rest : BinaryHeap (ByPriority (MessageToAll M)))
      → BinaryHeap.len (c.mailboxes b).queue ≡ suc (BinaryHeap.len rest)
      → IsTracked n c
      → IsTracked n (record (popped_broadcast c b rest) {
        broadcast_tail = longest_broadcast_queue (popped_broadcast c b rest);
      })
  unfolding popped_broadcast longest_broadcast_queue
  popped-IsTracked c b n rest len t =
      let l : IsListed c.broadcast_tail c.next_mailbox
          (update c.mailboxes b (record (c.mailboxes b) { queue = rest })) c.broadcast_queues =
        shorter-IsListed c.broadcast_tail c.next_mailbox c.mailboxes c.broadcast_queues b
          (record (c.mailboxes b) { queue = rest }) (λ e. e) (omega (arith, len)) t.listed in
      record {
        listed = record {
          numbered = l.numbered;
          distinct = l.distinct;
          below = longest-Below _ c.broadcast_queues 0;
        };
        small = omega (
          arith,
          t.small,
          longest-le c.broadcast_tail
              (update c.mailboxes b (record (c.mailboxes b) { queue = rest })) c.broadcast_queues 0
              (omega arith) l.below,
        );
      }

  pub PoppedBroadcast-IsTracked :
      (c : Chan D) (b n : ℕ) (r : Option (MessageToAll M) × Chan D)
      → suc n < usize_mod
      → IsTracked n c
      → PoppedBroadcast c b r
      → IsTracked (suc n) r.1
  PoppedBroadcast-IsTracked c b n r small t (PoppedBroadcast.nothing e s) = rw s (weaker n c t)
  PoppedBroadcast-IsTracked c b n r small t (PoppedBroadcast.popped msg rest perm tops len s) =
      rw s (
        Refilled-IsTracked _ _ n small (popped-IsTracked c b n rest len t)
          (refill_broadcast-RefilledBroadcast _))

  pub created-IsTracked :
      (n : ℕ) (c : Chan D) → IsTracked n c → IsTracked n (new_broadcast_mailbox c).1
  unfolding new_broadcast_mailbox
  created-IsTracked n c t = record {
    listed = record {
      numbered =
          All-append _ c.broadcast_queues (c.next_mailbox ∷ [])
            (All-mono _ _ c.broadcast_queues (λ q lt. omega arith) t.listed.numbered)
            (omega arith, tt);
      distinct =
          Distinct-snoc c.broadcast_queues c.next_mailbox t.listed.numbered t.listed.distinct;
      below =
          All-append _ c.broadcast_queues (c.next_mailbox ∷ [])
            (All-update_apart
              (λ (x : Broadcasts M). exists x ≡ true → BinaryHeap.len x.queue ≤ c.broadcast_tail)
              c.mailboxes c.next_mailbox (record { strong = 1; queue = BinaryHeap.empty })
              c.broadcast_queues (below-apart c.next_mailbox c.broadcast_queues t.listed.numbered)
              t.listed.below)
            (
              rw ((==_iff c.next_mailbox c.next_mailbox).1 refl)
                  (λ e. omega (arith, len-empty (ByPriority (MessageToAll M)))),
              tt,
            );
    };
    small = t.small;
  }

  pub queue_to_all-IsTracked :
      (c : Chan D) (m : MessageToAll M) (n : ℕ)
      → suc n < usize_mod
      → IsTracked n c
      → IsTracked (suc n) (queue_to_all c m).1
  unfolding queue_to_all
  queue_to_all-IsTracked c m n small t = elim (Bool-cases (is_broadcast_full c)) [
    | inl e ↦ rw e (record { listed = t.listed; small = omega (arith, t.small) })
    | inr e ↦ rw e (send_broadcast-IsTracked c m n small t)
  ]

  pop_unicast-IsTracked :
      (c : Chan D) (n : ℕ)
      → IsTracked n c
      → (r : Option (MessageToOne M) × Chan D) → Popped c r
      → IsTracked n r.1
  pop_unicast-IsTracked c n t r (nothing e s) = rw s t
  pop_unicast-IsTracked c n t r (popped msg rest perm tops len s) = rw s (
      SameBroadcast-IsTracked n (record c { unicast_queue = rest }) _
        (Refilled-SameBroadcast _ _ (refill_unicast-Refilled _))
        (record { listed = t.listed; small = t.small }))

  waits-IsTracked : (c : Chan D) (n : ℕ) → IsTracked n c → IsTracked n (wait_or_exit c).1
  unfolding wait_or_exit
  waits-IsTracked c n t = elim (Bool-cases (c.sender_count == 0)) [
    | inl e ↦ rw e t
    | inr e ↦ rw e (record { listed = t.listed; small = t.small })
  ]

  pub try_recv-IsTracked :
      (c : Chan D) (b n : ℕ)
      → suc n < usize_mod
      → IsTracked n c
      → IsTracked (suc n) (try_recv c b).1
  try_recv-IsTracked c b n small t =
      try_recv-any (IsTracked (suc n)) c b
        (weaker n _ (pop_unicast-IsTracked c n t _ (pop_unicast-Popped c)))
        (PoppedBroadcast-IsTracked c b n _ small t (pop_broadcast-PoppedBroadcast c b))
        (weaker n _ (waits-IsTracked c n t))

  pub receiver_dropped-IsTracked :
      (c : Chan D) (n : ℕ) → IsTracked n c → IsTracked n (on_receiver_dropped c)
  unfolding on_receiver_dropped shutdown_waiting_senders
  receiver_dropped-IsTracked c n t = elim (Bool-cases (c.receiver_count == 1)) [
    | inl e ↦
        rw e
          (record { listed = record { numbered = tt; distinct = tt; below = tt }; small = t.small })
    | inr e ↦ rw e (record { listed = t.listed; small = t.small })
  ]

  pub fulfilled-IsTracked :
      (c : Chan D) (msg : MessageToOne M) (n : ℕ)
      → IsTracked n c
      → IsTracked n (try_fulfill_receiver c msg).1
  unfolding try_fulfill_receiver
  fulfilled-IsTracked c msg n t = record { listed = t.listed; small = t.small }
