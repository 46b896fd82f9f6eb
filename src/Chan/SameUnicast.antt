-- ===== src/Chan/SameUnicast.antt =====
-- The operations of xtra/src/chan.rs that leave what the mailbox for single actors consists of as it is.
use xtra.Prelude.{ℕ, ◌≡◌, refl, Option, arith}
use xtra.Priority.{by_priority_has_priority}
use xtra.Envelope.{MessageToOne, MessageToAll, to_one_has_priority, to_all_has_priority}
use xtra.Chan.State.{Deps, Chan}
use xtra.Chan.Inner.{
  try_fulfill_receiver, popped_broadcast, send_broadcast, try_take_waiting_broadcast_message,
}
use xtra.Chan.Inner.Cases.{RefilledBroadcast, refill_broadcast-RefilledBroadcast, PoppedBroadcast}
use xtra.Chan.Methods.{on_sender_dropped, shutdown_waiting_receivers, queue_to_all}

module _ {M : Type 0} {D : Deps M} where
  -- What the mailbox for single actors consists of stays as it is.
  pub record SameUnicast (c d : Chan D) : Type 0 where
    pub capacity : d.capacity ≡ c.capacity
    pub senders : d.waiting_send_to_one ≡ c.waiting_send_to_one
    pub queue : d.unicast_queue ≡ c.unicast_queue

  pub same : (c : Chan D) → SameUnicast c c
  same c = record { capacity = refl; senders = refl; queue = refl }

  pub Refilled-SameUnicast :
      (c d r : Chan D) → SameUnicast c d → RefilledBroadcast d r → SameUnicast c r
  unfolding try_take_waiting_broadcast_message send_broadcast
  Refilled-SameUnicast c d r k (RefilledBroadcast.full e s) = rw s k
  Refilled-SameUnicast c d r k (RefilledBroadcast.nobody e n s) =
      rw s (record { capacity = k.capacity; senders = k.senders; queue = k.queue })
  Refilled-SameUnicast c d r k (RefilledBroadcast.took m e n s) =
      rw s (record { capacity = k.capacity; senders = k.senders; queue = k.queue })

  pub PoppedBroadcast-SameUnicast :
      (c : Chan D) (b : ℕ) (r : Option (MessageToAll M) × Chan D)
      → PoppedBroadcast c b r
      → SameUnicast c r.1
  unfolding popped_broadcast
  PoppedBroadcast-SameUnicast c b r (PoppedBroadcast.nothing e s) = rw s (same c)
  PoppedBroadcast-SameUnicast c b r (PoppedBroadcast.popped msg rest perm tops len s) = rw s (
      Refilled-SameUnicast c _ _ (record { capacity = refl; senders = refl; queue = refl })
        (refill_broadcast-RefilledBroadcast _))

  pub fulfilled-SameUnicast :
      (c : Chan D) (msg : MessageToOne M) → SameUnicast c (try_fulfill_receiver c msg).1
  unfolding try_fulfill_receiver
  fulfilled-SameUnicast c msg = record { capacity = refl; senders = refl; queue = refl }

  pub queue_to_all-SameUnicast :
      (c : Chan D) (m : MessageToAll M) → SameUnicast c (queue_to_all c m).1
  unfolding queue_to_all send_broadcast
  queue_to_all-SameUnicast c m = ground arith

  pub on_sender_dropped-SameUnicast : (c : Chan D) → SameUnicast c (on_sender_dropped c)
  unfolding on_sender_dropped shutdown_waiting_receivers
  on_sender_dropped-SameUnicast c = ground arith
