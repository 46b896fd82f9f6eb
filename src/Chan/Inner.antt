-- ===== src/Chan/Inner.antt =====
-- `impl Inner` of xtra/src/chan.rs: what is done with the mutex held.
pub mod Cases
use xtra.Prelude.{
  ℕ, zero, suc, max, Bool, true, false, Option, none, some, List, [], ◌∷◌, ◌++◌, if◌then◌else◌, leb,
  ltb, update,
}
use xtra.Std.{wrapping_inc}
use xtra.Priority.{ByPriority, by_priority, by_priority_has_priority}
use xtra.BinaryHeap
use xtra.BinaryHeap.{BinaryHeap}
use xtra.Envelope.{MessageToOne, MessageToAll, to_one_has_priority, to_all_has_priority}
use xtra.WaitingReceiver.{notify_new_message, notify_new_broadcast}
use xtra.WaitingQueue.{try_take_waiting_message}
use xtra.Chan.State.{Deps, Chan, Broadcasts, upgrade}

-- `Option<usize>::map_or(false, |cap| n >= cap)`
abbrev pub reached : Option ℕ → ℕ → Bool
reached none n = false
reached (some cap) n = leb cap n

module _ {M : Type 0} (D : Deps M) where
  open D use {oneshot}

  -- The loop of `try_fulfill_receiver` over the queue of handles; `none` is `Ok(())`.
  unfoldable pub fulfill :
      List ℕ
      → (ℕ → oneshot.State)
      → MessageToOne M
      → Option (MessageToOne M) × List ℕ × (ℕ → oneshot.State)
  fulfill [] slots msg = (some msg, [], slots)
  fulfill (rx ∷ rest) slots msg =
      let (back, slot) = notify_new_message oneshot (slots rx) msg in
      let slots' = update slots rx slot in
      let next = λ (m : MessageToOne M). fulfill rest slots' m in
      elim back [ none ↦ (none, rest, slots') | some unfulfilled_msg ↦ next unfulfilled_msg ]

  -- The handles of a queue are consumed one by one, each by the notification `f`.
  unfoldable pub notify_each :
      (oneshot.State → oneshot.State) → List ℕ → (ℕ → oneshot.State) → ℕ → oneshot.State
  notify_each f [] slots = slots
  notify_each f (rx ∷ rest) slots = notify_each f rest (update slots rx (f (slots rx)))

module _ {M : Type 0} where
  -- The loop of `longest_broadcast_queue`.
  unfoldable pub longest : (ℕ → Broadcasts M) → List ℕ → ℕ → ℕ
  longest mailboxes [] n = n
  longest mailboxes (q ∷ qs) n =
      longest mailboxes qs
        (elim (upgrade (mailboxes q)) [ none ↦ n | some queue ↦ max n (BinaryHeap.len queue) ])

  unfoldable pub push_to : Broadcasts M → MessageToAll M → Broadcasts M
  push_to b m = record b { queue = BinaryHeap.push b.queue (by_priority m) }

  -- `retain` of `send_broadcast`: the message goes to each mailbox that still exists, and the others
  -- are taken off the list.
  unfoldable pub deliver :
      MessageToAll M → List ℕ → (ℕ → Broadcasts M) → List ℕ × (ℕ → Broadcasts M)
  unfolding push_to
  deliver m [] mailboxes = ([], mailboxes)
  deliver m (q ∷ qs) mailboxes =
      let exists = ltb 0 (mailboxes q).strong in
      let (kept, mailboxes') =
        deliver m qs (if exists then update mailboxes q (push_to (mailboxes q) m) else mailboxes) in
      (if exists then q ∷ kept else kept, mailboxes')

module _ {M : Type 0} {D : Deps M} where
  unfoldable pub is_broadcast_full : Chan D → Bool
  is_broadcast_full c = reached c.capacity c.broadcast_tail

  unfoldable pub is_unicast_full : Chan D → Bool
  is_unicast_full c = reached c.capacity (BinaryHeap.len c.unicast_queue)

  unfoldable pub longest_broadcast_queue : Chan D → ℕ
  unfolding longest
  longest_broadcast_queue c = longest c.mailboxes c.broadcast_queues 0

  unfoldable pub try_fulfill_receiver : Chan D → MessageToOne M → Option (MessageToOne M) × Chan D
  try_fulfill_receiver c msg =
      let (back, left, slots) = fulfill D c.waiting_receivers_handles c.slots msg in
      (back, record c { waiting_receivers_handles = left; slots = slots })

  unfoldable pub try_take_waiting_unicast_message : Chan D → Option (MessageToOne M) × Chan D
  try_take_waiting_unicast_message c =
      let (msg, q, woken) = try_take_waiting_message c.waiting_send_to_one in
      (msg, record c { waiting_send_to_one = q; woken = c.woken ++ woken })

  unfoldable pub try_take_waiting_broadcast_message : Chan D → Option (MessageToAll M) × Chan D
  try_take_waiting_broadcast_message c =
      let (msg, q, woken) = try_take_waiting_message c.waiting_send_to_all in
      (msg, record c { waiting_send_to_all = q; woken = c.woken ++ woken })

  unfoldable pub send_broadcast : Chan D → MessageToAll M → Chan D
  send_broadcast c m =
      let (kept, mailboxes) = deliver m c.broadcast_queues c.mailboxes in
      record c {
        broadcast_queues = kept;
        mailboxes = mailboxes;
        slots = notify_each D (notify_new_broadcast D.oneshot) c.waiting_receivers_handles c.slots;
        waiting_receivers_handles = [];
        broadcast_tail = wrapping_inc c.broadcast_tail;
      }

  unfoldable pub push_unicast : Chan D → MessageToOne M → Chan D
  push_unicast c msg = record c {
    unicast_queue = BinaryHeap.push c.unicast_queue (by_priority msg);
  }

  -- Room in the mailbox goes to a sender that waits.
  unfoldable pub refill_unicast : Chan D → Chan D
  unfolding push_unicast
  refill_unicast c =
      let (waiting, taken) = try_take_waiting_unicast_message c in
      let refilled : Chan D = elim waiting [ none ↦ taken | some msg ↦ push_unicast taken msg ] in
      if is_unicast_full c then c else refilled

  unfoldable pub pop_unicast : Chan D → Option (MessageToOne M) × Chan D
  unfolding refill_unicast
  pop_unicast c = elim (BinaryHeap.pop c.unicast_queue) [
    | none ↦ (none, c)
    | some (msg, rest) ↦ (some msg.content, refill_unicast (record c { unicast_queue = rest }))
  ]

  unfoldable pub refill_broadcast : Chan D → Chan D
  refill_broadcast c =
      let (waiting, taken) = try_take_waiting_broadcast_message c in
      let refilled : Chan D = elim waiting [ none ↦ taken | some m ↦ send_broadcast taken m ] in
      if is_broadcast_full c then c else refilled

  -- The state after a message has left the mailbox `b`, whose rest is `rest`.
  unfoldable pub popped_broadcast : Chan D → ℕ → BinaryHeap (ByPriority (MessageToAll M)) → Chan D
  popped_broadcast c b rest = record c {
    mailboxes = update c.mailboxes b (record (c.mailboxes b) { queue = rest });
  }

  unfoldable pub pop_broadcast : Chan D → ℕ → Option (MessageToAll M) × Chan D
  unfolding refill_broadcast popped_broadcast
  pop_broadcast c b = elim (BinaryHeap.pop (c.mailboxes b).queue) [
    | none ↦ (none, c)
    | some (message, rest) ↦
        let c' = popped_broadcast c b rest in
        (
          some message.content,
          refill_broadcast (record c' { broadcast_tail = longest_broadcast_queue c' }),
        )
  ]
