-- ===== src/Chan/Held/Popping.antt =====
-- What the operations of xtra/src/chan.rs under the lock do to the messages that a channel holds.
use xtra.Prelude.{
  ℕ, ◌+◌, ◌≡◌, refl, ap, ◌∙◌, inl, inr, true, false, none, some, Option, arith, Bool-cases, ◌==◌,
  ==_iff, update, sum_of-Perm, sum_below-same, Ordering, Bool,
}
use xtra.Priority.{by_priority, by_priority_has_priority}
use xtra.BinaryHeap.Laws.{to_list-push}
use xtra.Envelope.{MessageToOne, MessageToAll, to_one_has_priority}
use xtra.WaitingReceiver.{new_broadcast, shutdown, notify_new_broadcast, notify_channel_shutdown}
use xtra.WaitingQueue.Invariant.{IsWellFormed}
use xtra.Chan.State.{Deps, Chan, ActorMessage, to_one_actor, to_all_actors}
use xtra.Chan.Inner.{
  push_unicast, is_unicast_full, pop_unicast, pop_broadcast, popped_broadcast, send_broadcast,
  try_take_waiting_unicast_message, try_take_waiting_broadcast_message,
}
use xtra.Chan.Inner.Cases.{
  Refilled, full, nobody, took, refill_unicast-Refilled, nothing, popped, pop_unicast-Popped,
  RefilledBroadcast, refill_broadcast-RefilledBroadcast, PoppedBroadcast,
  pop_broadcast-PoppedBroadcast,
}
use xtra.Chan.Notify.{notify_new_broadcast-look, notify_channel_shutdown-look}
use xtra.Chan.Methods.{
  Received, received, waiting, panicked, unwrap_unicast, unwrap_broadcast, wait_or_exit, choose,
  place_to_one, requeue_unfulfilled, shutdown_waiting_receivers,
}
use xtra.Chan.Held.{weigh, in_look, held}
use xtra.Chan.Held.Slots.{notify_each-in_look}
use xtra.Chan.Held.Senders.{push_back-in_queue, try_take_waiting_message-in_queue, above}

module _ {M : Type 0} (w : MessageToOne M → ℕ) where
  -- What a receive hands out, of the messages that are counted.
  abbrev pub in_received : Received M → ℕ
  in_received (received (to_one_actor msg)) = w msg
  in_received (received (to_all_actors msg)) = 0
  in_received (received ActorMessage.shutdown) = 0
  in_received (waiting rx) = 0
  in_received panicked = 0

module _ {M : Type 0} (w : MessageToOne M → ℕ) {D : Deps M} where
  pub push_unicast-held :
      (c : Chan D) (msg : MessageToOne M) → held w (push_unicast c msg) ≡ held w c + w msg
  unfolding push_unicast
  push_unicast-held c msg =
      omega
        (arith, sum_of-Perm (λ x. w x.content) _ _ (to_list-push c.unicast_queue (by_priority msg)))

  taken-held :
      (c : Chan D)
      → IsWellFormed c.waiting_send_to_one
      → held w (try_take_waiting_unicast_message c).1
          + weigh w (try_take_waiting_unicast_message c).0
        ≡ held w c
  unfolding try_take_waiting_unicast_message
  taken-held c wf = omega (arith, try_take_waiting_message-in_queue w c.waiting_send_to_one wf)

  Refilled-held :
      (c r : Chan D) → IsWellFormed c.waiting_send_to_one → Refilled c r → held w r ≡ held w c
  Refilled-held c r wf (full e s) = rw s refl
  Refilled-held c r wf (nobody e n s) = rw s (omega (arith, taken-held c wf, ap (weigh w) n))
  Refilled-held c r wf (took msg e n s) = rw s (
      omega (
        arith,
        taken-held c wf,
        ap (weigh w) n,
        push_unicast-held (try_take_waiting_unicast_message c).1 msg,
      ))

  -- A message that is popped leaves the channel.
  pub pop_unicast-held :
      (c : Chan D)
      → IsWellFormed c.waiting_send_to_one
      → held w (pop_unicast c).1 + weigh w (pop_unicast c).0 ≡ held w c
  pop_unicast-held c wf = elim (pop_unicast-Popped c) [
    | nothing e s ↦ rw s (omega arith)
    | popped msg rest perm tops len s ↦
        let refilled =
          Refilled-held (record c { unicast_queue = rest }) _ wf (refill_unicast-Refilled _) in
        let left = sum_of-Perm (λ x. w x.content) _ _ perm in rw s (omega (arith, refilled, left))
  ]

  -- No notification of a broadcast replaces a message.
  pub send_broadcast-held :
      (c : Chan D) (m : MessageToAll M) → held w (send_broadcast c m) ≡ held w c
  unfolding send_broadcast
  send_broadcast-held c m =
      let same = sum_below-same c.next_slot _ _ (λ i lt.
        notify_each-in_look w D (notify_new_broadcast D.oneshot) new_broadcast
          (notify_new_broadcast-look D.oneshot) refl c.waiting_receivers_handles c.slots i) in
      omega (arith, same)

  pub shutdown_waiting_receivers-held :
      (c : Chan D) → held w (shutdown_waiting_receivers c) ≡ held w c
  unfolding shutdown_waiting_receivers
  shutdown_waiting_receivers-held c =
      let same = sum_below-same c.next_slot _ _ (λ i lt.
        notify_each-in_look w D (notify_channel_shutdown D.oneshot) shutdown
          (notify_channel_shutdown-look D.oneshot) refl c.waiting_receivers_handles c.slots i) in
      omega (arith, same)

  RefilledBroadcast-held : (c r : Chan D) → RefilledBroadcast c r → held w r ≡ held w c
  unfolding try_take_waiting_broadcast_message
  RefilledBroadcast-held c r (RefilledBroadcast.full e s) = rw s refl
  RefilledBroadcast-held c r (RefilledBroadcast.nobody e n s) = rw s refl
  RefilledBroadcast-held c r (RefilledBroadcast.took m e n s) =
      rw s (send_broadcast-held (try_take_waiting_broadcast_message c).1 m)

  pub pop_broadcast-held : (c : Chan D) (b : ℕ) → held w (pop_broadcast c b).1 ≡ held w c
  unfolding popped_broadcast
  pop_broadcast-held c b = elim (pop_broadcast-PoppedBroadcast c b) [
    | PoppedBroadcast.nothing e s ↦ rw s refl
    | PoppedBroadcast.popped msg rest perm tops len s ↦
        rw s (RefilledBroadcast-held _ _ (refill_broadcast-RefilledBroadcast _))
  ]

  -- A receiver that begins to wait holds nothing yet.
  wait_or_exit-held : (c : Chan D) → held w (wait_or_exit c).1 ≡ held w c
  unfolding wait_or_exit
  wait_or_exit-held c = elim (Bool-cases (c.sender_count == 0)) [
    | inl e ↦ rw e refl
    | inr e ↦
        let same =
          sum_below-same c.next_slot (λ i. in_look w (D.oneshot.look (c.slots i)))
            (λ i. in_look w (D.oneshot.look (update c.slots c.next_slot D.oneshot.fresh i)))
            (λ i lt. rw (above c.next_slot i lt) refl) in
        let empty : in_look w (D.oneshot.look D.oneshot.fresh) ≡ 0 =
          ap (in_look w) D.oneshot.look-fresh in
        rw (e, (==_iff c.next_slot c.next_slot).1 refl) (omega (arith, same, empty))
  ]

  unwrap_unicast-in_received :
      (r : Option (MessageToOne M) × Chan D)
      → held w (unwrap_unicast r).1 + in_received w (unwrap_unicast r).0 ≡ held w r.1 + weigh w r.0
  unfolding unwrap_unicast
  unwrap_unicast-in_received (none, c) = refl
  unwrap_unicast-in_received (some m, c) = refl

  unwrap_broadcast-in_received :
      (r : Option (MessageToAll M) × Chan D)
      → held w (unwrap_broadcast r).1 + in_received w (unwrap_broadcast r).0 ≡ held w r.1
  unfolding unwrap_broadcast
  unwrap_broadcast-in_received (none, c) = omega arith
  unwrap_broadcast-in_received (some m, c) = omega arith

  wait_or_exit-in_received : (c : Chan D) → in_received w (wait_or_exit c).0 ≡ 0
  unfolding wait_or_exit
  wait_or_exit-in_received c = elim (Bool-cases (c.sender_count == 0)) [
    | inl e ↦ rw e refl
    | inr e ↦ rw e refl
  ]

  pub choose-held :
      (x : Ordering) (s : Bool) (c : Chan D) (b : ℕ)
      → IsWellFormed c.waiting_send_to_one
      → held w (choose x s c b).1 + in_received w (choose x s c b).0 ≡ held w c
  unfolding choose
  choose-held Ordering.gt true c b wf =
      unwrap_unicast-in_received (pop_unicast c) ∙ pop_unicast-held c wf
  choose-held Ordering.eq true c b wf =
      unwrap_unicast-in_received (pop_unicast c) ∙ pop_unicast-held c wf
  choose-held Ordering.lt s c b wf =
      unwrap_broadcast-in_received (pop_broadcast c b) ∙ pop_broadcast-held c b
  choose-held Ordering.gt false c b wf =
      omega (arith, wait_or_exit-held c, wait_or_exit-in_received c)
  choose-held Ordering.eq false c b wf =
      omega (arith, wait_or_exit-held c, wait_or_exit-in_received c)

  pub place_to_one-held :
      (r : Option (MessageToOne M) × Chan D) → held w (place_to_one r).1 ≡ held w r.1 + weigh w r.0
  unfolding place_to_one
  place_to_one-held (none, d) = omega arith
  place_to_one-held (some m, d) = elim (Bool-cases (is_unicast_full d)) [
    | inl f ↦ rw f (omega (arith, push_back-in_queue w d.waiting_send_to_one m))
    | inr f ↦ rw f (push_unicast-held d m)
  ]

  pub requeue_unfulfilled-held :
      (r : Option (MessageToOne M) × Chan D)
      → held w (requeue_unfulfilled r) ≡ held w r.1 + weigh w r.0
  unfolding requeue_unfulfilled
  requeue_unfulfilled-held (none, d) = omega arith
  requeue_unfulfilled-held (some m, d) = push_unicast-held d m
