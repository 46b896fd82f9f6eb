-- ===== src/Address/Join.antt =====
-- `Address::join` of xtra/src/address.rs: when the handle that it gives is ready.
use xtra.Prelude.{ℕ, ◌≡◌, refl, ◌⊎◌, inl, inr, true, false, none, some, Bool-cases}
use xtra.Std.{ready}
use xtra.Chan.State.{Deps, Chan}
use xtra.Chan.Listeners.{Steps-Keeps, last_receiver-notified}
use xtra.Chan.Methods
use xtra.Chan.Methods.{on_receiver_dropped, disconnect_listener}
use xtra.Chan.Steps.{Steps}
use xtra.Address.{Address, ActorJoinHandle, join, poll, poll_listener}

module _ {M : Type 0} {D : Deps M} where
  open D use {events}

  join-handle :
      (a : Address) (c : Chan D)
      → ((Methods.is_connected c ≡ false) × ((join a c).0.listener ≡ none))
        ⊎ ((i : ℕ) × (Methods.is_connected c ≡ true)
            × ((join a c).0.listener ≡ some i)
            × (events.listening (join a c).1.on_shutdown i ≡ true)
            × (events.notified (join a c).1.on_shutdown i ≡ false))
  unfolding join disconnect_listener
  join-handle a c = elim (Bool-cases (Methods.is_connected c)) [
    | inl y ↦ inr (
      (events.listen c.on_shutdown).0,
      y,
      rw y refl,
      events.listen-listening c.on_shutdown,
      events.listen-pending c.on_shutdown,
    )
    | inr n ↦ inl (n, rw n refl)
  ]

  poll-some :
      (h : ActorJoinHandle) (c : Chan D) (i : ℕ)
      → h.listener ≡ some i
      → events.notified c.on_shutdown i ≡ true
      → (poll h c).0 ≡ ready tt
  unfolding poll poll_listener
  poll-some h c i e n = rw (e, n) refl

  poll-none : (h : ActorJoinHandle) (c : Chan D) → h.listener ≡ none → (poll h c).0 ≡ ready tt
  unfolding poll poll_listener
  poll-none h c e = rw e refl

module _ {M : Type 0} {D : Deps M} (a : Address) (c : Chan D) where
  -- Whatever happens after a join, once the last receiver is dropped the handle is ready, and it stays
  -- so whatever happens then.
  pub join-on_receiver_dropped :
      {d e : Chan D}
      → Steps (join a c).1 d
      → d.receiver_count ≡ 1
      → Steps (on_receiver_dropped d) e
      → (poll (join a c).0 e).0 ≡ ready tt
  join-on_receiver_dropped {d} {e} path one later = elim (join-handle a c) [
    | inl (lost, none_left) ↦ poll-none (join a c).0 e none_left
    | inr (i, connected, some_left, l, n) ↦
        let k = Steps-Keeps i path l in
        let (l', n') = last_receiver-notified d i one k.listening in
        let k' = Steps-Keeps i later l' in poll-some (join a c).0 e i some_left (k'.notified n')
  ]
