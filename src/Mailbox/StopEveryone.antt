-- ===== src/Mailbox/StopEveryone.antt =====
-- `Context::stop_all` of xtra/src/context.rs and all receivers of the channel.
use mathlib.Core.List.{Mem, mem-cons_self}
use mathlib.Core.List.Perm
use xtra.Prelude.{
  ℕ, suc, ◌<◌, ◌≡◌, sym, arith, subst, inl, inr, Bool, true, false, Option, some, All, All-zip,
  All-retain, retain-All, retain, ◌==◌, if◌then◌else◌,
}
use xtra.Std.{usize_mod}
use xtra.Priority.{by_priority}
use xtra.BinaryHeap
use xtra.Envelope
use xtra.Envelope.{MessageToAll}
use xtra.Chan.State.{Deps, Chan, Broadcasts, to_all_actors}
use xtra.Chan.Inner.{send_broadcast}
use xtra.Chan.Broadcast.{exists, Gains, Reaches}
use xtra.Chan.Methods.{new, received, try_recv, next_broadcast_message}
use xtra.Chan.Steps.{Steps}
use xtra.Chan.Bounds.{taken, send_broadcast-Reaches}
use xtra.Mailbox.{Context, stop_all}
use xtra.Mailbox.StopAll.{
  try_recv-shutdown, next_broadcast_message-shutdown, stop_all-send_broadcast,
}

module _ {M : Type 0} where
  -- A mailbox that gained a message holds it.
  Reaches-Mem :
      (m : MessageToAll M) (b b' : Broadcasts M)
      → exists b ≡ true
      → Reaches m b b'
      → Mem (by_priority m) (BinaryHeap.to_list b'.queue)
  Reaches-Mem m b b' live r =
      let g : Gains m b b' = subst (λ y. if y then Gains m b b' else (b' ≡ b)) live r in
      (Perm.mem_iff g.content).1 mem-cons_self

module _ {M : Type 0} {D : Deps M} where
  -- The receivers of a broadcast mailbox come to the shutdown first: one that takes a message, and one that
  -- was woken by a broadcast.
  pub record ShutsDown (c : Chan D) (q : ℕ) : Type 0 where
    pub taken_next : (try_recv c q).0 ≡ received (to_all_actors Envelope.shutdown)
    pub when_woken : (next_broadcast_message c q).0 ≡ some Envelope.shutdown

  holding-ShutsDown :
      (c : Chan D) (q : ℕ)
      → Mem (by_priority Envelope.shutdown) (BinaryHeap.to_list (c.mailboxes q).queue)
      → ShutsDown c q
  holding-ShutsDown c q h = record {
    taken_next = try_recv-shutdown c q h;
    when_woken = next_broadcast_message-shutdown c q h;
  }

module _ {M : Type 0} (D : Deps M) (capacity : Option ℕ) {c : Chan D} where
  told :
      (path : Steps (new D capacity) c)
      → taken path < usize_mod
      → All
          (ShutsDown (send_broadcast c Envelope.shutdown))
          (retain (λ q. exists (c.mailboxes q)) c.broadcast_queues)
  told path small =
      let reaches = (send_broadcast-Reaches D capacity path small Envelope.shutdown).0 in
      let live : ℕ → Bool = λ q. exists (c.mailboxes q) in
      All-zip _ _ _ (retain live c.broadcast_queues)
        (λ q e r.
          holding-ShutsDown (send_broadcast c Envelope.shutdown) q
            (Reaches-Mem Envelope.shutdown (c.mailboxes q) _ e r))
        (retain-All live c.broadcast_queues) (All-retain _ live c.broadcast_queues reaches)

  -- In every state that a new channel comes to within fewer than 2^64 steps, with at least one and fewer
  -- than 2^64 - 1 strong addresses: right after a handler has called `stop_all`, for each broadcast
  -- mailbox that is on the list and still exists, a receiver that takes a message with `try_recv` is
  -- given a shutdown message, whatever else is in the two mailboxes, and so is a receiver that was
  -- woken by a broadcast and comes for it. Nothing is stated of a receiver that has been handed a
  -- message for one actor before and has not been polled since.
  pub stop_all-try_recv :
      (ctx : Context) (path : Steps (new D capacity) c)
      → taken path < usize_mod
      → suc c.sender_count < usize_mod
      → (c.sender_count == 0) ≡ false
      → All (ShutsDown (stop_all ctx c)) (retain (λ q. exists (c.mailboxes q)) c.broadcast_queues)
  stop_all-try_recv ctx path small few some_left = elim (stop_all-send_broadcast ctx c few) [
    | inl (z, e) ↦ absurd (ground (arith, z, some_left))
    | inr (nz, e) ↦
        subst (λ d. All (ShutsDown d) (retain (λ q. exists (c.mailboxes q)) c.broadcast_queues))
          (sym e) (told path small)
  ]
