-- ===== src/Select/Safety.antt =====
-- What `select` of xtra/src/lib.rs gives, whatever happens between its rounds.
use xtra.Prelude.{ℕ, ◌≡◌, ◌≢◌, refl, ap, Bool, true, false, List, [], ◌∷◌}
use xtra.Std.{Poll, ready, pending, ControlFlow, continue, break, Waker}
use xtra.Chan.State.{Deps, Chan}
use xtra.Ptr.{Ptr}
use xtra.Mailbox.{Mailbox}
use xtra.Recv
use xtra.Recv.{Receiving, Message}
use xtra.Recv.Loop.{Finishes, gives, waits, poll_alone-Finishes}
use xtra.Dispatch
use xtra.Dispatch.{Handler, DispatchFuture, dispatch, dispatch_to, Ended, Fut}
use xtra.Dispatch.Progress.{Runs, ends, goes_on, dispatch_poll-Runs}
use xtra.Select.{
  UserFuture, Select, repeat, select, won, fut_pending, fut_first, fut_second, message_first,
  select_either, dispatched, finished, select_round,
}
use xtra.Select.Places.{
  Pends, unpolled, Gave, gave, Goes, Went, left_by, Stands, at_either, at_dispatch, at_last,
  won_by_future, won_by_stop, Goes-Went, logged, ended_now, polled_pending,
}

dispatch_to-live :
    {M A R : Type 0} (H : Handler M A R) (m : Message M) (act : A)
    → (dispatch_to H m act).state ≢ Dispatch.done
unfolding dispatch_to dispatch
dispatch_to-live H m act e = cc

waiting-live :
    (recv : Receiving) {p : Ptr} {b rx : ℕ} → recv ≡ Recv.waiting p b rx → recv ≢ Recv.done
waiting-live recv e f = cc

running-live :
    {M A R : Type 0} {H : Handler M A R} (d : DispatchFuture H) {fut : Fut H}
    → d.state ≡ Dispatch.running fut
    → d.state ≢ Dispatch.done
running-live d e f = cc

module _ {M A R T : Type 0} {D : Deps M} (H : Handler M A R) (F : UserFuture T) (fut : F.State)
    (mailbox : Mailbox) (noop : Waker) (act : A) (log : List (Ended H)) where
  next-live : (c : Chan D) → (Recv.next mailbox c).0 ≢ Recv.done
  unfolding Recv.next
  next-live c e = cc

  -- The channel changes in a round; the place of `select` does not depend on it.
  won-Stands :
      (a : A) {v : T} (r : Recv.Outcome D)
      → a ≡ left_by H F fut act log
      → Goes H F fut log
      → Gave H F fut v
      → Finishes D r
      → Stands H F fut act log (won H F mailbox noop a v r).0
  unfolding won
  won-Stands a r same k g (gives m e d) = rw (e, won) (at_last _ _ _ k g (dispatch_to-live H m a))
  won-Stands a r same k g (waits p b rx e d) =
      rw (e, won) (won_by_future a same (Goes-Went H F fut log k) g)

  pending-Stands :
      (a : A) {f : F.State} (r : Recv.Outcome D)
      → a ≡ left_by H F fut act log
      → Goes H F fut log
      → Pends F fut f
      → Finishes D r
      → Stands H F fut act log (fut_pending H F mailbox noop a f r).0
  unfolding fut_pending
  pending-Stands a r same g k (gives m e d) =
      rw (e, fut_pending) (at_dispatch _ _ _ g k (dispatch_to-live H m a))
  pending-Stands a r same g k (waits p b rx e d) =
      rw (e, fut_pending) (at_either a r.1 same g k (waiting-live r.1 d))

  fut_first-Stands :
      (a : A) {f : F.State} (recv : Receiving) (cx : Waker) (c : Chan D) (r : Poll T × F.State)
      → a ≡ left_by H F fut act log
      → Goes H F fut log
      → Pends F fut f
      → recv ≢ Recv.done
      → F.poll f cx ≡ r
      → Stands H F fut act log (fut_first H F mailbox noop a recv cx c r).0
  unfolding fut_first
  fut_first-Stands a recv cx c (ready v, g) same goes k live e =
      won-Stands a _ same goes (gave cx k (ap (λ p. p.0) e)) (poll_alone-Finishes recv noop c live)
  fut_first-Stands a recv cx c (pending, g) same goes k live e =
      pending-Stands a _ same goes (polled_pending F fut cx k e)
        (poll_alone-Finishes recv cx c live)

  fut_second-Stands :
      (a : A) {f : F.State} (recv : Receiving) (cx : Waker) (c : Chan D) (r : Poll T × F.State)
      → a ≡ left_by H F fut act log
      → Goes H F fut log
      → Pends F fut f
      → recv ≢ Recv.done
      → F.poll f cx ≡ r
      → Stands H F fut act log (fut_second H F mailbox noop a recv c r).0
  unfolding fut_second
  fut_second-Stands a recv cx c (ready v, g) same goes k live e =
      won-Stands a _ same goes (gave cx k (ap (λ p. p.0) e)) (poll_alone-Finishes recv noop c live)
  fut_second-Stands a recv cx c (pending, g) same goes k live e =
      at_either a recv same goes (polled_pending F fut cx k e) live

  message_first-Stands :
      (a : A) {f : F.State} (cx : Waker) (r : Recv.Outcome D)
      → a ≡ left_by H F fut act log
      → Goes H F fut log
      → Pends F fut f
      → Finishes D r
      → Stands H F fut act log (message_first H F mailbox noop a f cx r).0
  unfolding message_first
  message_first-Stands a cx r same goes k (gives m e d) =
      rw (e, message_first) (at_dispatch _ _ _ goes k (dispatch_to-live H m a))
  message_first-Stands a {f} cx r same goes k (waits p b rx e d) =
      rw (e, message_first)
        (fut_second-Stands a r.1 cx r.2 (F.poll f cx) same goes k (waiting-live r.1 d) refl)

  either-Stands :
      (first : Bool) (a : A) {f : F.State} (recv : Receiving) (cx : Waker) (c : Chan D)
      → a ≡ left_by H F fut act log
      → Goes H F fut log
      → Pends F fut f
      → recv ≢ Recv.done
      → Stands H F fut act log (select_either H F mailbox noop first a f recv cx c).0
  unfolding select_either
  either-Stands true a {f} recv cx c same goes k live =
      fut_first-Stands a recv cx c (F.poll f cx) same goes k live refl
  either-Stands false a recv cx c same goes k live =
      message_first-Stands a cx (Recv.poll_alone recv cx c) same goes k
        (poll_alone-Finishes recv cx c live)

  repeat-Stands :
      {f : F.State} (e : Ended H) (flow : ControlFlow) (c : Chan D)
      → Goes H F fut log
      → Pends F fut f
      → e.flow ≡ flow
      → Stands H F fut act (e ∷ log) (repeat H F mailbox noop flow e.actor f c).0
  unfolding repeat left_by Goes
  repeat-Stands e continue c goes k flow = at_either e.actor _ refl (flow, goes) k (next-live c)
  repeat-Stands e break c goes k flow = won_by_stop e log refl flow goes k

  dispatched-Stands :
      (p : Ptr) (b : ℕ) {f : F.State} (r : Dispatch.Polled H × DispatchFuture H) (c : Chan D)
      → Goes H F fut log
      → Pends F fut f
      → Runs H r
      → Stands H F fut act (logged H F r.0 log) (dispatched H F mailbox noop p b f r c).0
  unfolding dispatched logged
  dispatched-Stands p b r c goes k (ends e q s) =
      rw (q, dispatched, logged) (repeat-Stands e e.flow _ goes k refl)
  dispatched-Stands p b r c goes k (goes_on g q s) =
      rw (q, dispatched, logged) (at_dispatch r.1 p b goes k (running-live r.1 s))

  finished-Stands :
      (p : Ptr) (b : ℕ) {v : T} (r : Dispatch.Polled H × DispatchFuture H) (c : Chan D)
      → Goes H F fut log
      → Gave H F fut v
      → Runs H r
      → Stands H F fut act (logged H F r.0 log) (finished H F mailbox noop p b v r c).0
  unfolding finished logged left_by Went
  finished-Stands p b r c goes g (ends e q s) =
      rw (q, finished, logged) (won_by_future e.actor refl goes g)
  finished-Stands p b r c goes g (goes_on h q s) =
      rw (q, finished, logged) (at_last r.1 p b goes g (running-live r.1 s))

  pub round-Stands :
      {s : Select H F} (first : Bool) (cx : Waker) (c : Chan D)
      → Stands H F fut act log s
      → Stands H F fut act (ended_now H F s cx log) (select_round H F mailbox noop first s cx c).0
  unfolding select_round ended_now
  round-Stands first cx c (at_either a recv same goes k live) =
      either-Stands first a recv cx c same goes k live
  round-Stands first cx c (at_dispatch d p b goes k live) =
      dispatched-Stands p b (Dispatch.poll H d cx) c goes k (dispatch_poll-Runs H d cx live)
  round-Stands first cx c (at_last d p b goes g live) =
      finished-Stands p b (Dispatch.poll H d cx) c goes g (dispatch_poll-Runs H d cx live)
  round-Stands first cx c (won_by_future a same went g) = won_by_future a same went g
  round-Stands first cx c (won_by_stop e before same flow goes k) =
      won_by_stop e before same flow goes k

module _ {M A R T : Type 0} (D : Deps M) (H : Handler M A R) (F : UserFuture T) (mailbox : Mailbox)
    (noop : Waker) (act : A) (fut : F.State) where
  pub select-Stands : (c : Chan D) → Stands H F fut act [] (select H F mailbox noop act fut c).0
  unfolding select repeat left_by Goes
  select-Stands c = at_either act _ refl tt unpolled (next-live H F fut mailbox noop act [] c)

  -- The states that rounds of `select` lead to, each with the dispatches that have ended by then. Before
  -- each round the channel may have become any other.
  pub data Selects : List (Ended H) → Select H F → Type 0 where
    begins : (c : Chan D) → Selects [] (select H F mailbox noop act fut c).0
    goes_round :
        {s : Select H F} {log : List (Ended H)} (first : Bool) (cx : Waker) (c : Chan D)
        → Selects log s
        → Selects (ended_now H F s cx log) (select_round H F mailbox noop first s cx c).0

  -- Whatever happens to the channel between the rounds of a `select`, where a poll of the next
  -- message is one step, and whichever of the two futures each round polls first, no round panics.
  -- The other future is polled again only if it was pending. The loop goes on only while every
  -- dispatch that has ended left the flow at `Continue`, with the actor that the last of them left.
  -- `select` returns that actor, and the value of the other future when it was first ready; or the
  -- future itself, not yet ready, and then the last dispatch that ended, and no other, left the flow
  -- at `Break`.
  pub Selects-Stands :
      {log : List (Ended H)} {s : Select H F} → Selects log s → Stands H F fut act log s
  Selects-Stands (begins c) = select-Stands c
  Selects-Stands (goes_round first cx c path) =
      round-Stands H F fut mailbox noop act _ first cx c (Selects-Stands path)
