-- ===== src/Mailbox/StopAll.antt =====
-- What `Context::stop_all` of xtra/src/context.rs brings about.
use mathlib.Core.List.{Mem, not-mem-nil}
use xtra.Prelude.{
  ℕ, suc, ◌<◌, ◌≡◌, refl, subst, ◌⊎◌, inl, inr, true, false, Option, none, some, arith, ◌==◌,
  Bool-cases,
}
use xtra.Std.{usize_mod, wrapping_inc, wrapping_dec}
use xtra.Priority.{Priority, by_priority, by_priority_has_priority, priority}
use xtra.Priority.Order.{◌⊑◌, le_refl}
use xtra.BinaryHeap
use xtra.Envelope.{MessageToOne, MessageToAll, to_one_has_priority, to_all_has_priority, concrete}
use xtra.Envelope
use xtra.Chan.State.{Deps, Chan, to_all_actors}
use xtra.BinaryHeap.Laws.{popped-Within}
use xtra.Chan.Inner.{send_broadcast, pop_broadcast}
use xtra.Chan.Inner.Cases.{PoppedBroadcast, pop_broadcast-PoppedBroadcast}
use xtra.Chan.Methods.{
  Received, received, try_recv, next_broadcast_message, shutdown_all_receivers, on_sender_dropped,
  shutdown_waiting_receivers,
}
use xtra.Chan.Receive.{
  Gives, gives_unicast, gives_broadcast, gives_shutdown, gives_wait, try_recv-Gives,
}
use xtra.Ptr
use xtra.Ptr.{tx_strong, try_to_tx_strong, try_new, destroy}
use xtra.Address
use xtra.Address.{try_upgrade}
use xtra.Mailbox.{Context, address, stop_all, stop_through}

-- A message that nothing outranks, beside a shutdown, is a shutdown.
is_shutdown :
    {M : Type 0} (m : MessageToAll M) → Priority.shutdown ⊑ priority m → m ≡ Envelope.shutdown
is_shutdown (concrete e) h = ground (arith, h)
is_shutdown Envelope.shutdown h = refl

wrapping_inc_dec : (n : ℕ) → suc n < usize_mod → wrapping_dec (wrapping_inc n) ≡ n
wrapping_inc_dec n small = omega arith

module _ {M : Type 0} {D : Deps M} where
  Gives-shutdown :
      (c : Chan D) (b : ℕ) (r : Received M × Chan D)
      → Mem (by_priority Envelope.shutdown) (BinaryHeap.to_list (c.mailboxes b).queue)
      → Gives c b r
      → r.0 ≡ received (to_all_actors Envelope.shutdown)
  Gives-shutdown c b r h (gives_unicast msg rest perm top others e) =
      let outranked = others (by_priority Envelope.shutdown) h in ground (arith, outranked)
  Gives-shutdown c b r h (gives_broadcast msg rest perm others top e) =
      rw (e, is_shutdown msg.content (top (by_priority Envelope.shutdown) h)) refl
  Gives-shutdown c b r h (gives_shutdown u v z e) = absurd (not-mem-nil (subst (Mem _) v h))
  Gives-shutdown c b r h (gives_wait u v z e) = absurd (not-mem-nil (subst (Mem _) v h))

  -- A receiver whose broadcast mailbox holds a shutdown message takes one next, whatever else waits in
  -- its two mailboxes.
  pub try_recv-shutdown :
      (c : Chan D) (b : ℕ)
      → Mem (by_priority Envelope.shutdown) (BinaryHeap.to_list (c.mailboxes b).queue)
      → (try_recv c b).0 ≡ received (to_all_actors Envelope.shutdown)
  try_recv-shutdown c b h = Gives-shutdown c b (try_recv c b) h (try_recv-Gives c b)

  Popped-shutdown :
      (c : Chan D) (b : ℕ) (r : Option (MessageToAll M) × Chan D)
      → Mem (by_priority Envelope.shutdown) (BinaryHeap.to_list (c.mailboxes b).queue)
      → PoppedBroadcast c b r
      → r.0 ≡ some Envelope.shutdown
  Popped-shutdown c b r h (PoppedBroadcast.nothing v e) = absurd (not-mem-nil (subst (Mem _) v h))
  Popped-shutdown c b r h (PoppedBroadcast.popped msg rest perm tops len e) =
      rw
        (
          e,
          is_shutdown msg.content (
              popped-Within _ msg _ (priority msg) perm tops (le_refl (priority msg))
                (by_priority Envelope.shutdown) h),
        )
        refl

  -- So does a receiver that was woken by a broadcast and comes for it.
  pub next_broadcast_message-shutdown :
      (c : Chan D) (b : ℕ)
      → Mem (by_priority Envelope.shutdown) (BinaryHeap.to_list (c.mailboxes b).queue)
      → (next_broadcast_message c b).0 ≡ some Envelope.shutdown
  unfolding next_broadcast_message
  next_broadcast_message-shutdown c b h =
      Popped-shutdown c b (pop_broadcast c b) h (pop_broadcast-PoppedBroadcast c b)

  upgrade-none :
      (a : Address.Address) (c : Chan D)
      → (c.sender_count == 0) ≡ true
      → try_upgrade a c ≡ (none, c)
  unfolding try_upgrade try_to_tx_strong try_new
  upgrade-none a c z = ground arith

  upgrade-some :
      (a : Address.Address) (c : Chan D)
      → (c.sender_count == 0) ≡ false
      → try_upgrade a c ≡ (
        some (record { ptr = record { inner = a.ptr.inner; ref_counter = tx_strong } }),
        record c { sender_count = wrapping_inc c.sender_count },
      )
  unfolding try_upgrade try_to_tx_strong try_new
  upgrade-some a c nz = ground arith

  -- With no strong address left, `stop_all` does nothing. With one, and fewer than 2^64 - 1 of them, it
  -- broadcasts a shutdown message, however full the mailboxes are, and leaves the count of addresses as
  -- it was.
  pub stop_all-send_broadcast :
      (ctx : Context) (c : Chan D)
      → suc c.sender_count < usize_mod
      → ((c.sender_count ≡ 0) × (stop_all ctx c ≡ c))
        ⊎ (((c.sender_count == 0) ≡ false) × (stop_all ctx c ≡ send_broadcast c Envelope.shutdown))
  unfolding stop_all stop_through Address.drop Ptr.drop destroy on_sender_dropped
      shutdown_all_receivers send_broadcast shutdown_waiting_receivers
  stop_all-send_broadcast ctx c small = elim (Bool-cases (c.sender_count == 0)) [
    | inl z ↦ inl (ground arith, rw (upgrade-none (address ctx.mailbox) c z) refl)
    | inr nz ↦
        let several : (wrapping_inc c.sender_count == 1) ≡ false = ground arith in
        inr (
          nz,
          rw
              (
                upgrade-some (address ctx.mailbox) c nz,
                several,
                wrapping_inc_dec c.sender_count small,
              )
              refl,
        )
  ]
