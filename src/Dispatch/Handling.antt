-- ===== src/Dispatch/Handling.antt =====
-- A message that the loop of xtra/src/lib.rs dispatches, from its first poll to its last.
use xtra.Prelude.{◌≡◌, refl, ap, subst}
use xtra.Std.{Poll, ready, pending, Waker}
use xtra.Instrumentation.{Span}
use xtra.Envelope
use xtra.Envelope.{ReturningEnvelope, BroadcastEnvelope}
use xtra.Chan.State.{ActorMessage, to_one_actor, to_all_actors, shutdown}
use xtra.Mailbox.{Mailbox, Context}
use xtra.Dispatch
use xtra.Dispatch.{
  Finished, Handler, flow_of, context, Fut, returning, broadcasting, shutting_down, handle_to_one,
  handle_to_all, State, new, running, DispatchFuture, start, Ended, poll_fut, Polled, polled,
  poll_running, poll_state, returned, broadcasted, ran,
}
use xtra.Select.{UserFuture}
use xtra.Select.Places.{Pends, unpolled, polled_again}
use xtra.Run.{Actor, yield_once}
use xtra.Run.Task.{answers_of}

module _ {M A R : Type 0} (H : Handler M A R) where
  -- The future of a handler.
  abbrev pub handling : UserFuture (Finished A R)
  handling = record { State = H.Running; poll = H.poll }

  -- Whenever the handler is finished, it leaves what the function says.
  abbrev pub Computes : (A → M → Context → Finished A R) → Type 0
  Computes f =
      (act : A) (m : M) (ctx : Context) (h : H.Running) (cx : Waker) (fin : Finished A R)
      → Pends handling (H.handle act m ctx) h
      → (H.poll h cx).0 ≡ ready fin
      → fin ≡ f act m ctx

module _ {M A R : Type 0} (H : Handler M A R) (act : A) (mailbox : Mailbox) where
  -- The future of this message, after some polls that were pending.
  pub data Handles : ActorMessage M → Fut H → Type 0 where
    to_one :
        (e : ReturningEnvelope M) {h : H.Running}
        → Pends (handling H) (H.handle act e.message (context mailbox)) h
        → Handles (to_one_actor e) (returning h e.result_sender)
    to_all :
        (e : BroadcastEnvelope M) {h : H.Running}
        → Pends (handling H) (H.handle act e.message (context mailbox)) h
        → Handles (to_all_actors (Envelope.concrete e)) (broadcasting h)
    stop_all : Handles (to_all_actors Envelope.shutdown) (shutting_down act)
    stop : Handles shutdown (shutting_down act)

  pub data InProgress (msg : ActorMessage M) : State H → Type 0 where
    begun : InProgress msg (new msg act mailbox)
    going : {fut : Fut H} → Handles msg fut → InProgress msg (running fut)

  pub start-Handles : (msg : ActorMessage M) → Handles msg (start H msg act mailbox).0
  unfolding start handle_to_one handle_to_all
  start-Handles (to_one_actor e) = to_one e unpolled
  start-Handles (to_all_actors (Envelope.concrete e)) = to_all e unpolled
  start-Handles (to_all_actors Envelope.shutdown) = stop_all
  start-Handles shutdown = stop

module _ {M A R Stop : Type 0} (H : Handler M A R) (P : Actor M A R Stop) (act : A)
    (mailbox : Mailbox) where
  -- The message has been handled, with what `yield_once` says, or its handler goes on.
  pub data Advances (msg : ActorMessage M) (r : Polled H × DispatchFuture H) : Type 0 where
    handled :
        (e : Ended H)
        → r.0 ≡ polled (ready e)
        → e.flow ≡ (yield_once P mailbox act msg).flow
        → e.actor ≡ (yield_once P mailbox act msg).actor
        → answers_of e.answer ≡ (yield_once P mailbox act msg).answers
        → Advances msg r
    goes_on : r.0 ≡ polled pending → InProgress H act mailbox msg r.1.state → Advances msg r

  to_one-Advances :
      (e : ReturningEnvelope M) (h : H.Running) (cx : Waker) (sp : Span)
      (r : Poll (Finished A R) × H.Running)
      → Computes H P.handle
      → Pends (handling H) (H.handle act e.message (context mailbox)) h
      → H.poll h cx ≡ r
      → Advances (to_one_actor e) (ran H sp (returned H r e.result_sender))
  unfolding ran returned yield_once
  to_one-Advances e h cx sp (ready fin, g) computes k q =
      let same = computes act e.message (context mailbox) h cx fin k (ap (λ x. x.0) q) in
      rw same (handled _ refl refl refl refl)
  to_one-Advances e h cx sp (pending, g) computes k q = goes_on refl (
      going (
        to_one e
          (subst (Pends (handling H) _) (ap (λ x. x.1) q) (polled_again cx k (ap (λ x. x.0) q)))))

  to_all-Advances :
      (e : BroadcastEnvelope M) (h : H.Running) (cx : Waker) (sp : Span)
      (r : Poll (Finished A R) × H.Running)
      → Computes H P.handle
      → Pends (handling H) (H.handle act e.message (context mailbox)) h
      → H.poll h cx ≡ r
      → Advances (to_all_actors (Envelope.concrete e)) (ran H sp (broadcasted H r))
  unfolding ran broadcasted yield_once
  to_all-Advances e h cx sp (ready fin, g) computes k q =
      let same = computes act e.message (context mailbox) h cx fin k (ap (λ x. x.0) q) in
      rw same (handled _ refl refl refl refl)
  to_all-Advances e h cx sp (pending, g) computes k q = goes_on refl (
      going (
        to_all e
          (subst (Pends (handling H) _) (ap (λ x. x.1) q) (polled_again cx k (ap (λ x. x.0) q)))))

  fut-Advances :
      (msg : ActorMessage M) (fut : Fut H) (sp : Span) (cx : Waker)
      → Computes H P.handle
      → Handles H act mailbox msg fut
      → Advances msg (poll_running H fut sp cx)
  unfolding poll_running poll_fut ran yield_once
  fut-Advances msg fut sp cx computes (to_one e {h = h} k) =
      to_one-Advances e h cx sp (H.poll h cx) computes k refl
  fut-Advances msg fut sp cx computes (to_all e {h = h} k) =
      to_all-Advances e h cx sp (H.poll h cx) computes k refl
  fut-Advances msg fut sp cx computes stop_all = handled _ refl refl refl refl
  fut-Advances msg fut sp cx computes stop = handled _ refl refl refl refl

  state-Advances :
      (msg : ActorMessage M) (s : State H) (sp : Span) (cx : Waker)
      → Computes H P.handle
      → InProgress H act mailbox msg s
      → Advances msg (poll_state H s sp cx)
  unfolding poll_state
  state-Advances msg s sp cx computes begun =
      fut-Advances msg _ _ cx computes (start-Handles H act mailbox msg)
  state-Advances msg s sp cx computes (going {fut = fut} k) = fut-Advances msg fut sp cx computes k

  -- A poll of a message in progress does not panic, and ends it as `yield_once` says.
  pub poll-Advances :
      (msg : ActorMessage M) (d : DispatchFuture H) (cx : Waker)
      → Computes H P.handle
      → InProgress H act mailbox msg d.state
      → Advances msg (Dispatch.poll H d cx)
  unfolding Dispatch.poll
  poll-Advances msg d cx computes k = state-Advances msg d.state d.span cx computes k
