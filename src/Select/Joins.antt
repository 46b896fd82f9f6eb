-- ===== src/Select/Joins.antt =====
-- What `join` of xtra/src/lib.rs gives, whatever happens between its rounds.
use xtra.Prelude.{◌≡◌, refl, ap, Bool, List, [], ◌∷◌}
use xtra.Std.{Poll, ready, pending, break, Waker}
use xtra.Chan.State.{Deps, Chan}
use xtra.Mailbox.{Mailbox}
use xtra.Dispatch.{Handler, Ended}
use xtra.Select.{
  UserFuture, Join, joining, awaiting, joined, after_select, awaited, join, join_round, Select,
}
use xtra.Select.Places.{
  Pends, Gave, gave, Goes, Went, left_by, Stands, at_either, at_dispatch, at_last, won_by_future,
  won_by_stop, ended_now, polled_pending,
}
use xtra.Select.Safety.{round-Stands, select-Stands}

-- Where a `join` of the future can stand, started with the actor `act`, when the dispatches in the list
-- have ended: in a `select` that has not returned; at the future alone, after the last dispatch and no
-- other has stopped the actor, where a round leaves the channel as it finds it; or at its end.
pub data JoinStands {M A R T : Type 0} (D : Deps M) (H : Handler M A R) (F : UserFuture T)
    (mailbox : Mailbox) (noop : Waker) (fut : F.State) (act : A) (log : List (Ended H))
    : Join H F → Type 0 where
  in_select :
      {s : Select H F}
      → Stands H F fut act log s
      → after_select H F s ≡ joining s
      → JoinStands D H F mailbox noop fut act log (joining s)
  alone :
      {f : F.State} (e : Ended H) (before : List (Ended H))
      → log ≡ e ∷ before
      → e.flow ≡ break
      → Goes H F fut before
      → Pends F fut f
      → ((first : Bool) (cx : Waker) (c : Chan D)
          → (join_round H F mailbox noop first (awaiting e.actor f) cx c).1 ≡ c)
      → JoinStands D H F mailbox noop fut act log (awaiting e.actor f)
  over :
      {v : T} (a : A)
      → a ≡ left_by H F fut act log
      → Went H F fut log
      → Gave H F fut v
      → JoinStands D H F mailbox noop fut act log (joined a v)

module _ {M A R T : Type 0} (H : Handler M A R) (F : UserFuture T) where
  -- The dispatches that have ended after a round of `join`.
  pub ended_in_join : Join H F → Waker → List (Ended H) → List (Ended H)
  ended_in_join (joining s) cx log = ended_now H F s cx log
  ended_in_join (awaiting a f) cx log = log
  ended_in_join (joined a v) cx log = log

module _ {M A R T : Type 0} (D : Deps M) (H : Handler M A R) (F : UserFuture T) (mailbox : Mailbox)
    (noop : Waker) (act : A) (fut : F.State) where
  alone_at :
      {f : F.State} (log : List (Ended H)) (e : Ended H) (before : List (Ended H))
      → log ≡ e ∷ before
      → e.flow ≡ break
      → Goes H F fut before
      → Pends F fut f
      → JoinStands D H F mailbox noop fut act log (awaiting e.actor f)
  unfolding join_round
  alone_at log e before last flow goes k = alone e before last flow goes k (λ first cx c. refl)

  after-JoinStands :
      {s : Select H F} (log : List (Ended H))
      → Stands H F fut act log s
      → JoinStands D H F mailbox noop fut act log (after_select H F s)
  unfolding after_select
  after-JoinStands log (at_either a recv same goes k live) =
      in_select (at_either a recv same goes k live) refl
  after-JoinStands log (at_dispatch d p b goes k live) =
      in_select (at_dispatch d p b goes k live) refl
  after-JoinStands log (at_last d p b goes g live) = in_select (at_last d p b goes g live) refl
  after-JoinStands log (won_by_future a same went g) = over a same went g
  after-JoinStands log (won_by_stop e before last flow goes k) =
      alone_at log e before last flow goes k

  awaited-JoinStands :
      {f : F.State} (log : List (Ended H)) (e : Ended H) (before : List (Ended H)) (cx : Waker)
      (r : Poll T × F.State)
      → log ≡ e ∷ before
      → e.flow ≡ break
      → Goes H F fut before
      → Pends F fut f
      → F.poll f cx ≡ r
      → JoinStands D H F mailbox noop fut act log (awaited H F e.actor r)
  unfolding awaited left_by Went
  awaited-JoinStands log e before cx (ready v, g) last flow goes k q =
      over e.actor (rw last refl) (rw last goes) (gave cx k (ap (λ p. p.0) q))
  awaited-JoinStands log e before cx (pending, g) last flow goes k q =
      alone_at log e before last flow goes (polled_pending F fut cx k q)

  round-JoinStands :
      {j : Join H F} (log : List (Ended H)) (first : Bool) (cx : Waker) (c : Chan D)
      → JoinStands D H F mailbox noop fut act log j
      → JoinStands D H F mailbox noop fut act
          (ended_in_join H F j cx log)
          (join_round H F mailbox noop first j cx c).0
  unfolding join_round ended_in_join
  round-JoinStands log first cx c (in_select st inside) =
      after-JoinStands _ (round-Stands H F fut mailbox noop act log first cx c st)
  round-JoinStands log first cx c (alone {f = f} e before last flow goes k same) =
      awaited-JoinStands log e before cx (F.poll f cx) last flow goes k refl
  round-JoinStands log first cx c (over a same went g) = over a same went g

  -- The states that rounds of `join` lead to, each with the dispatches that have ended by then. Before
  -- each round the channel may have become any other.
  pub data Joins : List (Ended H) → Join H F → Type 0 where
    begins : (c : Chan D) → Joins [] (join H F mailbox noop act fut c).0
    goes_round :
        {j : Join H F} {log : List (Ended H)} (first : Bool) (cx : Waker) (c : Chan D)
        → Joins log j
        → Joins (ended_in_join H F j cx log) (join_round H F mailbox noop first j cx c).0

  -- Whatever happens to the channel between the rounds of a `join`, where a poll of the next message
  -- is one step, no round panics, and the value that it returns is that of the other future when it
  -- was first ready, with the actor that the last dispatch left. Messages are awaited and handled
  -- only while every dispatch that has ended left the flow at `Continue`. When one has left it at
  -- `Break`, it is the last to be handled: from then on only the future is polled, and no round
  -- touches the channel any more.
  pub Joins-JoinStands :
      {log : List (Ended H)} {j : Join H F}
      → Joins log j
      → JoinStands D H F mailbox noop fut act log j
  unfolding join
  Joins-JoinStands (begins c) = after-JoinStands [] (select-Stands D H F mailbox noop act fut c)
  Joins-JoinStands (goes_round first cx c path) =
      round-JoinStands _ first cx c (Joins-JoinStands path)
