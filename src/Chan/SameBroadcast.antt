-- ===== src/Chan/SameBroadcast.antt =====
-- The operations of xtra/src/chan.rs that leave what the broadcast mailboxes consist of as it is.
use xtra.Prelude.{◌≡◌, refl, Option, none, some, arith}
use xtra.Envelope.{MessageToOne}
use xtra.Chan.State.{Deps, Chan}
use xtra.Chan.Inner.{push_unicast, try_take_waiting_unicast_message}
use xtra.Chan.Inner.Cases.{Refilled, full, nobody, took}
use xtra.Chan.Methods.{
  on_sender_dropped, shutdown_waiting_receivers, place_to_one, requeue_unfulfilled,
}

module _ {M : Type 0} {D : Deps M} where
  -- What the broadcast mailboxes consist of stays as it is.
  pub record SameBroadcast (c d : Chan D) : Type 0 where
    pub tail : d.broadcast_tail ≡ c.broadcast_tail
    pub next : d.next_mailbox ≡ c.next_mailbox
    pub mailboxes : d.mailboxes ≡ c.mailboxes
    pub queues : d.broadcast_queues ≡ c.broadcast_queues

  pub Refilled-SameBroadcast : (c r : Chan D) → Refilled c r → SameBroadcast c r
  unfolding try_take_waiting_unicast_message push_unicast
  Refilled-SameBroadcast c r (full e s) =
      rw s (record { tail = refl; next = refl; mailboxes = refl; queues = refl })
  Refilled-SameBroadcast c r (nobody e w s) =
      rw s (record { tail = refl; next = refl; mailboxes = refl; queues = refl })
  Refilled-SameBroadcast c r (took msg e w s) =
      rw s (record { tail = refl; next = refl; mailboxes = refl; queues = refl })

  pub sender_dropped-SameBroadcast : (c : Chan D) → SameBroadcast c (on_sender_dropped c)
  unfolding on_sender_dropped shutdown_waiting_receivers
  sender_dropped-SameBroadcast c = ground arith

  pub place_to_one-SameBroadcast :
      (r : Option (MessageToOne M) × Chan D) → SameBroadcast r.1 (place_to_one r).1
  unfolding place_to_one push_unicast
  place_to_one-SameBroadcast (none, d) = record {
    tail = refl;
    next = refl;
    mailboxes = refl;
    queues = refl;
  }
  place_to_one-SameBroadcast (some m, d) = ground arith

  pub requeue_unfulfilled-SameBroadcast :
      (r : Option (MessageToOne M) × Chan D) → SameBroadcast r.1 (requeue_unfulfilled r)
  unfolding requeue_unfulfilled push_unicast
  requeue_unfulfilled-SameBroadcast (none, d) = record {
    tail = refl;
    next = refl;
    mailboxes = refl;
    queues = refl;
  }
  requeue_unfulfilled-SameBroadcast (some m, d) = record {
    tail = refl;
    next = refl;
    mailboxes = refl;
    queues = refl;
  }
