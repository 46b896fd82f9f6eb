-- ===== src/Chan/Methods/Cases.antt =====
-- `try_recv` of xtra/src/chan.rs by the three things that it can do to the state.
use xtra.Prelude.{ℕ, ◌≡◌, refl, sym, subst, Bool, true, false, Option, none, some, Ordering}
use xtra.Envelope.{MessageToOne, MessageToAll}
use xtra.Chan.State.{Deps, Chan}
use xtra.Chan.Inner.{pop_unicast, pop_broadcast}
use xtra.Chan.Methods.{unwrap_unicast, unwrap_broadcast, wait_or_exit, choose, try_recv}

module _ {M : Type 0} {D : Deps M} where
  pub unwrap_unicast-state : (r : Option (MessageToOne M) × Chan D) → (unwrap_unicast r).1 ≡ r.1
  unfolding unwrap_unicast
  unwrap_unicast-state (none, c) = refl
  unwrap_unicast-state (some m, c) = refl

  pub unwrap_broadcast-state : (r : Option (MessageToAll M) × Chan D) → (unwrap_broadcast r).1 ≡ r.1
  unfolding unwrap_broadcast
  unwrap_broadcast-state (none, c) = refl
  unwrap_broadcast-state (some m, c) = refl

module _ {ℓ} {M : Type 0} {D : Deps M} (P : Chan D → Type ℓ) (c : Chan D) (b : ℕ)
    (unicast : P (pop_unicast c).1) (broadcast : P (pop_broadcast c b).1)
    (waits : P (wait_or_exit c).1) where
  choose-any : (x : Ordering) (s : Bool) → P (choose x s c b).1
  unfolding choose
  choose-any Ordering.gt true = subst P (sym (unwrap_unicast-state (pop_unicast c))) unicast
  choose-any Ordering.eq true = subst P (sym (unwrap_unicast-state (pop_unicast c))) unicast
  choose-any Ordering.lt s = subst P (sym (unwrap_broadcast-state (pop_broadcast c b))) broadcast
  choose-any Ordering.gt false = waits
  choose-any Ordering.eq false = waits

  -- What holds after each of the three holds after `try_recv`.
  pub try_recv-any : P (try_recv c b).1
  unfolding try_recv
  try_recv-any = choose-any _ _
