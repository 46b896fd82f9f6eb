-- ===== src/Chan/Bounds.antt =====
-- The induction over the steps of Chan/Steps for the broadcast mailboxes, and what it gives.
use xtra.Prelude.{ℕ, suc, ◌<◌, ◌≡◌, refl, Option, [], arith, All, retain}
use xtra.Std.{usize_mod}
use xtra.Envelope.{MessageToAll}
use xtra.Deps.{after_send}
use xtra.WaitingReceiver.{new_broadcast, notify_new_broadcast}
use xtra.Chan.State.{Deps, Chan}
use xtra.Chan.Inner.{send_broadcast}
use xtra.Chan.Inner.Cases.{pop_broadcast-PoppedBroadcast}
use xtra.Chan.Broadcast.{exists, Reaches, deliver-Reaches, deliver-retain}
use xtra.Chan.Notify.{notify_each-All, notify_new_broadcast-look}
use xtra.Chan.Tail.{IsTracked, send_broadcast-IsTracked}
use xtra.Chan.SameBroadcast.{
  sender_dropped-SameBroadcast, place_to_one-SameBroadcast, requeue_unfulfilled-SameBroadcast,
}
use xtra.Chan.Tracked.{
  weaker, SameBroadcast-IsTracked, shorter-IsListed, created-IsTracked, PoppedBroadcast-IsTracked,
  queue_to_all-IsTracked, try_recv-IsTracked, receiver_dropped-IsTracked, fulfilled-IsTracked,
}
use xtra.Chan.Methods.{
  new, on_sender_created, on_receiver_created, disconnect_listener, next_broadcast_message,
  shutdown_all_receivers, try_recv, queue_to_one, requeue_message,
}
use xtra.Chan.Steps.{
  Step, Steps, here, next, poll_to_one, poll_to_all, drop_to_one, drop_to_all, set_slot,
  clone_mailbox, drop_mailbox, sender_created, sender_dropped, receiver_created, receiver_dropped,
  mailbox_created, sends_to_one, sends_to_all, receives, stops_all, listens, requeues,
  takes_broadcast, polls_to_one, polls_to_all, drops_to_one, drops_to_all, polls_slot, cancels_slot,
  drops_slot, clones_mailbox, drops_mailbox,
}

module _ {M : Type 0} {D : Deps M} where
  -- How many steps a path has.
  abbrev pub taken : {c d : Chan D} → Steps c d → ℕ
  taken here = 0
  taken (next path s) = suc (taken path)

  Step-IsTracked :
      {c d : Chan D} (n : ℕ) → suc n < usize_mod → Step c d → IsTracked n c → IsTracked (suc n) d
  unfolding on_sender_created on_receiver_created disconnect_listener next_broadcast_message
      shutdown_all_receivers poll_to_one poll_to_all drop_to_one drop_to_all set_slot clone_mailbox
      drop_mailbox try_recv queue_to_one requeue_message
  Step-IsTracked {c} n small sender_created t = record {
    listed = t.listed;
    small = omega (arith, t.small);
  }
  Step-IsTracked {c} n small sender_dropped t =
      weaker n _ (SameBroadcast-IsTracked n c _ (sender_dropped-SameBroadcast c) t)
  Step-IsTracked {c} n small receiver_created t = record {
    listed = t.listed;
    small = omega (arith, t.small);
  }
  Step-IsTracked {c} n small receiver_dropped t = weaker n _ (receiver_dropped-IsTracked c n t)
  Step-IsTracked {c} n small mailbox_created t = weaker n _ (created-IsTracked n c t)
  Step-IsTracked {c} n small (sends_to_one msg) t =
      weaker n _ (
        SameBroadcast-IsTracked n _ _ (place_to_one-SameBroadcast _)
          (fulfilled-IsTracked c msg n t))
  Step-IsTracked {c} n small (sends_to_all m) t = queue_to_all-IsTracked c m n small t
  Step-IsTracked {c} n small (receives b) t = try_recv-IsTracked c b n small t
  Step-IsTracked {c} n small stops_all t = send_broadcast-IsTracked c _ n small t
  Step-IsTracked {c} n small listens t = record {
    listed = t.listed;
    small = omega (arith, t.small);
  }
  Step-IsTracked {c} n small (requeues msg) t = weaker n _ (
      SameBroadcast-IsTracked n _ _ (requeue_unfulfilled-SameBroadcast _)
        (fulfilled-IsTracked c msg n t))
  Step-IsTracked {c} n small (takes_broadcast b) t =
      PoppedBroadcast-IsTracked c b n _ small t (pop_broadcast-PoppedBroadcast c b)
  Step-IsTracked {c} n small (polls_to_one h w) t = record {
    listed = t.listed;
    small = omega (arith, t.small);
  }
  Step-IsTracked {c} n small (polls_to_all h w) t = record {
    listed = t.listed;
    small = omega (arith, t.small);
  }
  Step-IsTracked {c} n small (drops_to_one h) t = record {
    listed = t.listed;
    small = omega (arith, t.small);
  }
  Step-IsTracked {c} n small (drops_to_all h) t = record {
    listed = t.listed;
    small = omega (arith, t.small);
  }
  Step-IsTracked {c} n small (polls_slot rx w) t = record {
    listed = t.listed;
    small = omega (arith, t.small);
  }
  Step-IsTracked {c} n small (cancels_slot rx) t = record {
    listed = t.listed;
    small = omega (arith, t.small);
  }
  Step-IsTracked {c} n small (drops_slot rx) t = record {
    listed = t.listed;
    small = omega (arith, t.small);
  }
  Step-IsTracked {c} n small (clones_mailbox b x) t = weaker n _ (record {
    listed =
        shorter-IsListed _ _ c.mailboxes c.broadcast_queues b _ (λ e. x) (omega arith) t.listed;
    small = t.small;
  })
  Step-IsTracked {c} n small (drops_mailbox b) t = weaker n _ (record {
    listed =
        shorter-IsListed _ _ c.mailboxes c.broadcast_queues b _ (λ e. ground arith) (omega arith)
          t.listed;
    small = t.small;
  })

  Steps-IsTracked :
      {c d : Chan D} (path : Steps c d)
      → taken path < usize_mod
      → IsTracked 0 c
      → IsTracked (taken path) d
  Steps-IsTracked here small t = t
  Steps-IsTracked (next path s) small t =
      Step-IsTracked (taken path) small s (Steps-IsTracked path (omega arith) t)

new-IsTracked : {M : Type 0} (D : Deps M) (capacity : Option ℕ) → IsTracked 0 (new D capacity)
unfolding new
new-IsTracked D capacity = record {
  listed = record { numbered = tt; distinct = tt; below = tt };
  small = omega arith;
}

module _ {M : Type 0} (D : Deps M) (capacity : Option ℕ) {c : Chan D} where
  -- Every state that a new channel comes to within fewer than 2^64 steps has the tail at or above the
  -- length of every broadcast mailbox on its list that still exists, each of which is there once, and
  -- the tail is not above the number of steps, so it has not wrapped around.
  pub Steps-new-IsTracked :
      (path : Steps (new D capacity) c) → taken path < usize_mod → IsTracked (taken path) c
  Steps-new-IsTracked path small = Steps-IsTracked path small (new-IsTracked D capacity)

  -- In every state that a new channel comes to within fewer than 2^64 steps, a broadcast puts its
  -- message once into each mailbox on the list that still exists, leaves the others as they are and
  -- strikes them off, and tells each receiver that waits, after which none waits.
  pub send_broadcast-Reaches :
      (path : Steps (new D capacity) c)
      → taken path < usize_mod
      → (m : MessageToAll M)
      → All (λ q. Reaches m (c.mailboxes q) ((send_broadcast c m).mailboxes q)) c.broadcast_queues
        × ((send_broadcast c m).broadcast_queues
            ≡ retain (λ q. exists (c.mailboxes q)) c.broadcast_queues)
        × All
            (λ rx.
              D.oneshot.look ((send_broadcast c m).slots rx)
              ≡ after_send (D.oneshot.look (c.slots rx)) new_broadcast)
            c.waiting_receivers_handles
        × ((send_broadcast c m).waiting_receivers_handles ≡ [])
  unfolding send_broadcast
  send_broadcast-Reaches path small m =
      let t = Steps-new-IsTracked path small in
      (
        deliver-Reaches m c.broadcast_queues c.mailboxes t.listed.distinct,
        deliver-retain m c.broadcast_queues c.mailboxes,
        notify_each-All D (notify_new_broadcast D.oneshot) new_broadcast
            (notify_new_broadcast-look D.oneshot) c.waiting_receivers_handles c.slots,
        refl,
      )
