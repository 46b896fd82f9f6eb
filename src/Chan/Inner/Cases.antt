-- ===== src/Chan/Inner/Cases.antt =====
-- The operations under the lock, branch by branch.
use xtra.Prelude.{
  ℕ, ◌≡◌, inl, inr, true, false, Option, none, some, [], ◌∷◌, arith, Bool-cases, Option-cases, suc,
  Perm,
}
use xtra.Priority.{ByPriority, by_priority_has_priority}
use xtra.BinaryHeap
use xtra.BinaryHeap.{BinaryHeap}
use xtra.BinaryHeap.Laws.{Tops, pop-Pops, len-to_list}
use xtra.Envelope.{MessageToOne, MessageToAll, to_one_has_priority, to_all_has_priority}
use xtra.Chan.State.{Deps, Chan}
use xtra.Chan.Inner.{
  is_unicast_full, is_broadcast_full, try_take_waiting_unicast_message,
  try_take_waiting_broadcast_message, push_unicast, refill_unicast, refill_broadcast,
  send_broadcast, pop_unicast, pop_broadcast, popped_broadcast, longest_broadcast_queue,
}

module _ {M : Type 0} {D : Deps M} (c : Chan D) where
  pub data Refilled (r : Chan D) : Type 0 where
    full : is_unicast_full c ≡ true → r ≡ c → Refilled r
    nobody :
        is_unicast_full c ≡ false
        → (try_take_waiting_unicast_message c).0 ≡ none
        → r ≡ (try_take_waiting_unicast_message c).1
        → Refilled r
    took :
        (msg : MessageToOne M)
        → is_unicast_full c ≡ false
        → (try_take_waiting_unicast_message c).0 ≡ some msg
        → r ≡ push_unicast (try_take_waiting_unicast_message c).1 msg
        → Refilled r

  pub refill_unicast-Refilled : Refilled (refill_unicast c)
  unfolding refill_unicast
  refill_unicast-Refilled = elim (Bool-cases (is_unicast_full c)) [
    | inl e ↦ full e (rw e)
    | inr e ↦ elim (Option-cases (try_take_waiting_unicast_message c).0) [
      | inl n ↦ nobody e n (rw (e, n))
      | inr (msg, s) ↦ took msg e s (rw (e, s))
    ]
  ]

  pub data RefilledBroadcast (r : Chan D) : Type 0 where
    full : is_broadcast_full c ≡ true → r ≡ c → RefilledBroadcast r
    nobody :
        is_broadcast_full c ≡ false
        → (try_take_waiting_broadcast_message c).0 ≡ none
        → r ≡ (try_take_waiting_broadcast_message c).1
        → RefilledBroadcast r
    took :
        (m : MessageToAll M)
        → is_broadcast_full c ≡ false
        → (try_take_waiting_broadcast_message c).0 ≡ some m
        → r ≡ send_broadcast (try_take_waiting_broadcast_message c).1 m
        → RefilledBroadcast r

  pub refill_broadcast-RefilledBroadcast : RefilledBroadcast (refill_broadcast c)
  unfolding refill_broadcast
  refill_broadcast-RefilledBroadcast = elim (Bool-cases (is_broadcast_full c)) [
    | inl e ↦ RefilledBroadcast.full e (rw e)
    | inr e ↦ elim (Option-cases (try_take_waiting_broadcast_message c).0) [
      | inl n ↦ RefilledBroadcast.nobody e n (rw (e, n))
      | inr (msg, s) ↦ RefilledBroadcast.took msg e s (rw (e, s))
    ]
  ]

module _ {M : Type 0} {D : Deps M} (c : Chan D) where
  -- The mailbox was empty, or a greatest message left it and the room was filled.
  pub data Popped (r : Option (MessageToOne M) × Chan D) : Type 0 where
    nothing : BinaryHeap.to_list c.unicast_queue ≡ [] → r ≡ (none, c) → Popped r
    popped :
        (msg : ByPriority (MessageToOne M)) (rest : BinaryHeap (ByPriority (MessageToOne M)))
        → Perm (BinaryHeap.to_list c.unicast_queue) (msg ∷ BinaryHeap.to_list rest)
        → Tops msg (BinaryHeap.to_list rest)
        → BinaryHeap.len c.unicast_queue ≡ suc (BinaryHeap.len rest)
        → r ≡ (some msg.content, refill_unicast (record c { unicast_queue = rest }))
        → Popped r

  pub pop_unicast-Popped : Popped (pop_unicast c)
  unfolding pop_unicast
  pop_unicast-Popped = elim (pop-Pops c.unicast_queue) [
    | inl (e, n) ↦ nothing e (rw (n, pop_unicast))
    | inr (msg, rest, s, perm, tops, length) ↦
        popped msg rest perm tops (omega (arith, len-to_list c.unicast_queue)) (rw (s, pop_unicast))
  ]

module _ {M : Type 0} {D : Deps M} (c : Chan D) (b : ℕ) where
  abbrev broadcasts : BinaryHeap (ByPriority (MessageToAll M))
  broadcasts = (c.mailboxes b).queue

  -- The same for the broadcast mailbox `b`, after which the tail is counted anew.
  pub data PoppedBroadcast (r : Option (MessageToAll M) × Chan D) : Type 0 where
    nothing : BinaryHeap.to_list broadcasts ≡ [] → r ≡ (none, c) → PoppedBroadcast r
    popped :
        (msg : ByPriority (MessageToAll M)) (rest : BinaryHeap (ByPriority (MessageToAll M)))
        → Perm (BinaryHeap.to_list broadcasts) (msg ∷ BinaryHeap.to_list rest)
        → Tops msg (BinaryHeap.to_list rest)
        → BinaryHeap.len broadcasts ≡ suc (BinaryHeap.len rest)
        → r ≡ (
          some msg.content,
          refill_broadcast (record (popped_broadcast c b rest) {
            broadcast_tail = longest_broadcast_queue (popped_broadcast c b rest);
          }),
        )
        → PoppedBroadcast r

  pub pop_broadcast-PoppedBroadcast : PoppedBroadcast (pop_broadcast c b)
  unfolding pop_broadcast
  pop_broadcast-PoppedBroadcast = elim (pop-Pops broadcasts) [
    | inl (e, n) ↦ PoppedBroadcast.nothing e (rw (n, pop_broadcast))
    | inr (msg, rest, s, perm, tops, length) ↦
        PoppedBroadcast.popped msg rest perm tops (omega (arith, len-to_list broadcasts))
          (rw (s, pop_broadcast))
  ]
