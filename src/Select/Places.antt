-- ===== src/Select/Places.antt =====
-- Where a `select` of xtra/src/lib.rs can stand.
use xtra.Prelude.{ℕ, ◌≡◌, ◌≢◌, ap, subst, All, List, [], ◌∷◌}
use xtra.Std.{ready, pending, left, right, continue, break, Waker}
use xtra.Ptr.{Ptr}
use xtra.Recv
use xtra.Recv.{Receiving, Message}
use xtra.Dispatch
use xtra.Dispatch.{Handler, DispatchFuture, dispatch, dispatch_to, Ended, Fut}
use xtra.Select.{UserFuture, Select, selecting, dispatching, finishing, returned, failed}

-- The second state comes from the first by polls that were all pending.
pub data Pends {T : Type 0} (F : UserFuture T) (fut : F.State) : F.State → Type 0 where
  unpolled : Pends F fut fut
  polled_again :
      {f : F.State} (cx : Waker)
      → Pends F fut f
      → (F.poll f cx).0 ≡ pending
      → Pends F fut (F.poll f cx).1

pub polled_pending :
    {T : Type 0} (F : UserFuture T) (fut : F.State) {f g : F.State} (cx : Waker)
    → Pends F fut f
    → F.poll f cx ≡ (pending, g)
    → Pends F fut g
polled_pending F fut cx k e =
    subst (Pends F fut) (ap (λ p. p.1) e) (polled_again cx k (ap (λ p. p.0) e))

module _ {M A R T : Type 0} (H : Handler M A R) (F : UserFuture T) (fut : F.State) where
  -- The value that the future gave when it was first ready.
  pub data Gave (v : T) : Type 0 where
    gave : {f : F.State} (cx : Waker) → Pends F fut f → (F.poll f cx).0 ≡ ready v → Gave v

  -- The dispatches of a `select` that have ended, the last one first: all of them left the flow at
  -- `Continue`.
  unfoldable pub Goes : List (Ended H) → Type 0
  Goes log = All (λ e. e.flow ≡ continue) log

  -- All but the last did.
  unfoldable pub Went : List (Ended H) → Type 0
  Went [] = Unit
  Went (e ∷ log) = Goes log

  -- The actor that the last one has left.
  unfoldable pub left_by : A → List (Ended H) → A
  left_by act [] = act
  left_by act (e ∷ log) = e.actor

  -- Where a `select` of the future can stand, started with the actor `act`, when the dispatches in the
  -- list have ended; a panic is not among the places.
  pub data Stands (act : A) (log : List (Ended H)) : Select H F → Type 0 where
    at_either :
        {f : F.State} (a : A) (recv : Receiving)
        → a ≡ left_by act log
        → Goes log
        → Pends F fut f
        → recv ≢ Recv.done
        → Stands act log (selecting a f recv)
    at_dispatch :
        {f : F.State} (d : DispatchFuture H) (p : Ptr) (b : ℕ)
        → Goes log
        → Pends F fut f
        → d.state ≢ Dispatch.done
        → Stands act log (dispatching d p b f)
    at_last :
        {v : T} (d : DispatchFuture H) (p : Ptr) (b : ℕ)
        → Goes log
        → Gave v
        → d.state ≢ Dispatch.done
        → Stands act log (finishing v d p b)
    won_by_future :
        {v : T} (a : A)
        → a ≡ left_by act log
        → Went log
        → Gave v
        → Stands act log (returned a (left v))
    won_by_stop :
        {f : F.State} (e : Ended H) (before : List (Ended H))
        → log ≡ e ∷ before
        → e.flow ≡ break
        → Goes before
        → Pends F fut f
        → Stands act log (returned e.actor (right f))

  pub Goes-Went : (log : List (Ended H)) → Goes log → Went log
  unfolding Went Goes
  Goes-Went [] g = tt
  Goes-Went (e ∷ log) g = g.1

module _ {M A R T : Type 0} (H : Handler M A R) (F : UserFuture T) where
  -- The dispatches that have ended after a poll of one, and after a round of `select`.
  unfoldable pub logged : Dispatch.Polled H → List (Ended H) → List (Ended H)
  logged (Dispatch.polled (ready e)) log = e ∷ log
  logged (Dispatch.polled pending) log = log
  logged Dispatch.panicked log = log

  unfoldable pub ended_now : Select H F → Waker → List (Ended H) → List (Ended H)
  unfolding logged
  ended_now (selecting a f recv) cx log = log
  ended_now (dispatching d p b f) cx log = logged (Dispatch.poll H d cx).0 log
  ended_now (finishing v d p b) cx log = logged (Dispatch.poll H d cx).0 log
  ended_now (returned a r) cx log = log
  ended_now failed cx log = log
