-- ===== src/Run/Rounds.antt =====
-- The loop of xtra/src/lib.rs on a channel does what the loop over the list of its messages does.
use xtra.Prelude.{
  ℕ, ◌≡◌, ◌≢◌, refl, sym, subst, true, some, List, [], ◌∷◌, ◌++◌, append-nil, append_assoc,
}
use xtra.Std.{ready, pending, ControlFlow, continue, break, Waker, ok}
use xtra.Chan.State.{Deps, Chan, ActorMessage}
use xtra.Ptr
use xtra.Ptr.{Ptr, RefCounter, tx_strong, tx_weak, tx_either, rx, strong, weak, make_new}
use xtra.Ptr.Counts.{make_new-policy}
use xtra.Mailbox.{Mailbox, from_parts}
use xtra.Recv
use xtra.Recv.{Receiving}
use xtra.Recv.Loop.{Finishes, gives, waits, poll_alone-Finishes}
use xtra.Recv.Keeps.{IsOf, Keeps, poll-Keeps}
use xtra.Dispatch
use xtra.Dispatch.{Handler, DispatchFuture, dispatch, dispatch_to}
use xtra.Dispatch.Handling.{Computes, InProgress, begun, Advances, handled, goes_on, poll-Advances}
use xtra.Run.{Actor, yield_once, run_loop, run}
use xtra.Run.Order.{GoesOn, run-stops}
use xtra.Run.Task.{
  Task, receiving, dispatching, stopping, while_continue, begin, after_next, after_dispatch,
  run_round, taken_by, answered_by, takes, answers,
}

next-IsOf :
    {M : Type 0} {D : Deps M} (mailbox : Mailbox) (c : Chan D)
    → IsOf mailbox (Recv.next mailbox c).0
unfolding Recv.next Ptr.clone from_parts
next-IsOf mailbox c = rw (make_new-policy mailbox.inner.ref_counter c) refl

next-live :
    {M : Type 0} {D : Deps M} (mailbox : Mailbox) (c : Chan D) → (Recv.next mailbox c).0 ≢ Recv.done
unfolding Recv.next
next-live mailbox c e = cc

waiting-live :
    (recv : Receiving) {p : Ptr} {b rx : ℕ} → recv ≡ Recv.waiting p b rx → recv ≢ Recv.done
waiting-live recv e f = cc

module _ {M A R Stop : Type 0} (P : Actor M A R Stop) (mailbox : Mailbox) where
  -- One message more.
  GoesOn-snoc :
      {a b : A} {msgs : List (ActorMessage M)} {sent : List (ℕ × R)} (msg : ActorMessage M)
      → GoesOn P mailbox a msgs b sent
      → (yield_once P mailbox b msg).flow ≡ continue
      → GoesOn P mailbox a
          (msgs ++ msg ∷ [])
          (yield_once P mailbox b msg).actor
          (sent ++ (yield_once P mailbox b msg).answers)
  GoesOn-snoc msg GoesOn.here e =
      subst (GoesOn P mailbox _ (msg ∷ []) _) (append-nil _) (GoesOn.next e GoesOn.here)
  GoesOn-snoc msg (GoesOn.next {answers = old} e path) f =
      subst (GoesOn P mailbox _ _ _) (sym (append_assoc _ old _))
        (GoesOn.next e (GoesOn-snoc msg path f))

module _ {M A R Stop : Type 0} (H : Handler M A R) (P : Actor M A R Stop) (mailbox : Mailbox)
    (a : A) (b : A) where
  -- Where the loop of an actor `a`, which has started as `b`, can stand when these messages have been taken and
  -- these answers sent; a panic is not among the places.
  pub data Follows : Task H → List (ActorMessage M) → List (ℕ × R) → Type 0 where
    at_next :
        {act : A} {recv : Receiving} {taken : List (ActorMessage M)} {sent : List (ℕ × R)}
        → GoesOn P mailbox b taken act sent
        → recv ≢ Recv.done
        → IsOf mailbox recv
        → Follows (receiving act recv) taken sent
    at_dispatch :
        {act : A} {taken : List (ActorMessage M)} {sent : List (ℕ × R)} (msg : ActorMessage M)
        (d : DispatchFuture H) (p : Ptr) (q : ℕ)
        → GoesOn P mailbox b taken act sent
        → InProgress H act mailbox msg d.state
        → Follows (dispatching d p q) (taken ++ msg ∷ []) sent
    at_end :
        {act : A} {taken : List (ActorMessage M)} {sent : List (ℕ × R)}
        → run_loop P mailbox b taken ≡ (act, true, sent, [])
        → run P mailbox a taken ≡ some (P.stopped act)
        → Follows (stopping act) taken sent

  dispatch_to-InProgress :
      (m : Recv.Message M) (act : A)
      → from_parts m.channel m.broadcast_mailbox ≡ mailbox
      → InProgress H act mailbox m.inner (dispatch_to H m act).state
  unfolding dispatch_to dispatch
  dispatch_to-InProgress m act k =
      subst (λ mb. InProgress H act mb m.inner (dispatch_to H m act).state) k begun

module _ {M A R Stop : Type 0} {D : Deps M} (H : Handler M A R) (P : Actor M A R Stop)
    (mailbox : Mailbox) (a b : A) where
  next-Follows :
      {act : A} {taken : List (ActorMessage M)} {sent : List (ℕ × R)} (r : Recv.Outcome D)
      → GoesOn P mailbox b taken act sent
      → Keeps D mailbox r
      → Finishes D r
      → Follows H P mailbox a b (after_next H mailbox act r).0 (taken ++ taken_by r) sent
  unfolding after_next
  next-Follows {act} (Recv.polled (ready m), s, c) goes k f =
      at_dispatch m.inner _ _ _ goes (dispatch_to-InProgress H P mailbox a b m act k)
  next-Follows {taken = taken} (Recv.polled pending, s, c) goes k (waits p q i e w) =
      rw (append-nil taken) (at_next goes (waiting-live s w) k)
  next-Follows (Recv.polled pending, s, c) goes k (gives m e d) = cc
  next-Follows (Recv.panicked, s, c) goes k (gives m e d) = cc
  next-Follows (Recv.panicked, s, c) goes k (waits p q i e w) = cc
  next-Follows (Recv.looping, s, c) goes k (gives m e d) = cc
  next-Follows (Recv.looping, s, c) goes k (waits p q i e w) = cc

  turned-Follows :
      {act : A} {taken : List (ActorMessage M)} {sent : List (ℕ × R)} (msg : ActorMessage M)
      (flow : ControlFlow) (c : Chan D)
      → P.started a mailbox ≡ ok b
      → GoesOn P mailbox b taken act sent
      → (yield_once P mailbox act msg).flow ≡ flow
      → Follows H P mailbox a b
          (while_continue H mailbox flow (yield_once P mailbox act msg).actor c).0
          (taken ++ msg ∷ [])
          (sent ++ (yield_once P mailbox act msg).answers)
  unfolding while_continue
  turned-Follows msg continue c started goes e =
      at_next (GoesOn-snoc P mailbox msg goes e) (next-live mailbox c) (next-IsOf mailbox c)
  turned-Follows msg break c started goes e =
      let (loop, value) = run-stops P mailbox a msg [] started goes e in at_end loop value

  dispatch-Follows :
      {act : A} {taken : List (ActorMessage M)} {sent : List (ℕ × R)} (msg : ActorMessage M)
      (p : Ptr) (q : ℕ) (r : Dispatch.Polled H × DispatchFuture H) (c : Chan D)
      → P.started a mailbox ≡ ok b
      → GoesOn P mailbox b taken act sent
      → Advances H P act mailbox msg r
      → Follows H P mailbox a b
          (after_dispatch H mailbox p q r c).0
          (taken ++ msg ∷ [])
          (sent ++ answered_by H r)
  unfolding after_dispatch
  dispatch-Follows {act} {sent = sent} msg p q r c started goes
        (handled e ready_is flow actor answers) =
      rw (ready_is, after_dispatch)
        (rw (flow, actor, answers)
          (turned-Follows msg (yield_once P mailbox act msg).flow _ started goes refl))
  dispatch-Follows {sent = sent} msg p q r c started goes (goes_on pending_is k) =
      rw (pending_is, after_dispatch, append-nil sent) (at_dispatch msg r.1 p q goes k)

  round-Follows :
      {s : Task H} {taken : List (ActorMessage M)} {sent : List (ℕ × R)} (cx : Waker) (c : Chan D)
      → P.started a mailbox ≡ ok b
      → Computes H P.handle
      → Follows H P mailbox a b s taken sent
      → Follows H P mailbox a b
          (run_round H mailbox s cx c).0
          (taken ++ takes H s cx c)
          (sent ++ answers H s cx)
  unfolding run_round
  round-Follows {sent = sent} cx c started computes (at_next {recv = recv} goes live k) =
      rw (append-nil sent) (
        next-Follows (Recv.poll_alone recv cx c) goes (poll-Keeps D mailbox cx recv c k)
          (poll_alone-Finishes recv cx c live))
  round-Follows cx c started computes (at_dispatch {act = act} {taken = before} msg d p q goes k) =
      rw (append-nil (before ++ msg ∷ [])) (
        dispatch-Follows msg p q (Dispatch.poll H d cx) c started goes
          (poll-Advances H P act mailbox msg d cx computes k))
  round-Follows {taken = taken} {sent = sent} cx c started computes (at_end loop value) =
      rw (append-nil taken, append-nil sent) (at_end loop value)

  begin-Follows : (c : Chan D) → Follows H P mailbox a b (begin H mailbox b c).0 [] []
  unfolding begin while_continue
  begin-Follows c = at_next GoesOn.here (next-live mailbox c) (next-IsOf mailbox c)

module _ {M A R : Type 0} (D : Deps M) (H : Handler M A R) (mailbox : Mailbox) (b : A) where
  -- The states that rounds lead to, with the messages taken and the answers sent until then. Before
  -- each round the channel may have become any other.
  pub data Rounds : Task H → List (ActorMessage M) → List (ℕ × R) → Type 0 where
    begins : (c : Chan D) → Rounds (begin H mailbox b c).0 [] []
    goes_round :
        {s : Task H} {taken : List (ActorMessage M)} {sent : List (ℕ × R)} (cx : Waker) (c : Chan D)
        → Rounds s taken sent
        → Rounds (run_round H mailbox s cx c).0 (taken ++ takes H s cx c) (sent ++ answers H s cx)

module _ {M A R Stop : Type 0} (D : Deps M) (H : Handler M A R) (P : Actor M A R Stop)
    (mailbox : Mailbox) (a b : A) where
  -- Whatever happens to the channel between the polls of the loop of an actor that has started, and
  -- however often its handlers are pending, no poll panics. While the loop goes on, the actor has
  -- gone on after each message it took, in the order in which it took them, and has sent their
  -- answers, but for the last message where that one is still being handled. When the loop has
  -- ended, the loop over the list of these messages ends with the same actor and the same answers
  -- and leaves no message, and `run` gives what this actor stops with. It is assumed that what a
  -- handler leaves when it is finished does not depend on when it is polled, and a poll of the next
  -- message is one step.
  pub Rounds-Follows :
      {s : Task H} {taken : List (ActorMessage M)} {sent : List (ℕ × R)}
      → P.started a mailbox ≡ ok b
      → Computes H P.handle
      → Rounds D H mailbox b s taken sent
      → Follows H P mailbox a b s taken sent
  Rounds-Follows started computes (begins c) = begin-Follows H P mailbox a b c
  Rounds-Follows started computes (goes_round cx c path) =
      round-Follows H P mailbox a b cx c started computes (Rounds-Follows started computes path)
