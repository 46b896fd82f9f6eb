-- ===== src/Dispatch/Progress.antt =====
-- What a poll of a message that is handled comes to, in xtra/src/dispatch_future.rs and the `handle`
-- methods of xtra/src/envelope.rs.
use xtra.Prelude.{ap, ℕ, ◌≡◌, ◌≢◌, refl, Option, none, some}
use xtra.Std.{Poll, ready, pending, break, Waker}
use xtra.Instrumentation.{Span}
use xtra.Chan.State.{to_one_actor, to_all_actors, shutdown}
use xtra.Envelope
use xtra.Envelope.{ReturningEnvelope, BroadcastEnvelope}
use xtra.Mailbox.{Mailbox}
use xtra.Dispatch.{
  Finished, Handler, flow_of, context, Fut, handle_to_one, handle_to_all, State, new, running, done,
  DispatchFuture, dispatch, start, Ended, poll_fut, Polled, polled, poll_running, poll_state, poll,
  returned, broadcasted, ran, span,
}

unready : {T : Type 0} → T → Poll T → T
unready t (ready x) = x
unready t pending = t

finished : {T : Type 0} {x y : T} → ready x ≡ ready y → x ≡ y
unfolding unready
finished {T} {x} {y} e = ap (unready x) e

module _ {M A R : Type 0} (H : Handler M A R) where
  -- A poll that gives no panic: the message is handled and the future done, or the handler goes on.
  pub data Runs (r : Polled H × DispatchFuture H) : Type 0 where
    ends : (e : Ended H) → r.0 ≡ polled (ready e) → r.1.state ≡ done → Runs r
    goes_on : (fut : Fut H) → r.0 ≡ polled pending → r.1.state ≡ running fut → Runs r

  ran-Runs : (sp : Span) (r : Poll (Ended H) × Fut H) → Runs (ran H sp r)
  unfolding ran
  ran-Runs sp (ready e, fut) = ends e refl refl
  ran-Runs sp (pending, fut) = goes_on fut refl refl

  state-Runs : (s : State H) (sp : Span) (cx : Waker) → s ≢ done → Runs (poll_state H s sp cx)
  unfolding poll_state poll_running
  state-Runs (new msg act mailbox) sp cx live = ran-Runs _ _
  state-Runs (running fut) sp cx live = ran-Runs sp _
  state-Runs done sp cx live = absurd (live refl)

  -- A poll of a dispatched message that is not done does not panic: it is ready and the future done, or
  -- pending and the handler goes on.
  pub dispatch_poll-Runs : (d : DispatchFuture H) (cx : Waker) → d.state ≢ done → Runs (poll H d cx)
  unfolding poll
  dispatch_poll-Runs d cx live = state-Runs d.state d.span cx live

  -- What is left of a handler that is finished: a flow and an answer.
  abbrev pub ended : Finished A R → Option (ℕ × R) → Ended H
  ended fin answer = record { flow = flow_of fin.ctx; actor = fin.actor; answer = answer }

  returned-ready :
      (p : Poll (Finished A R) × H.Running) (tx : ℕ) (sp : Span) (fin : Finished A R)
      → p.0 ≡ ready fin
      → (ran H sp (returned H p tx)).0 ≡ polled (ready (ended fin (some (tx, fin.value))))
  unfolding ran returned
  returned-ready (ready x, run) tx sp fin e =
      ap (λ y. polled (ready (ended y (some (tx, y.value))))) (finished e)
  returned-ready (pending, run) tx sp fin e = cc

  broadcasted-ready :
      (p : Poll (Finished A R) × H.Running) (sp : Span) (fin : Finished A R)
      → p.0 ≡ ready fin
      → (ran H sp (broadcasted H p)).0 ≡ polled (ready (ended fin none))
  unfolding ran broadcasted
  broadcasted-ready (ready x, run) sp fin e = ap (λ y. polled (ready (ended y none))) (finished e)
  broadcasted-ready (pending, run) sp fin e = cc

  -- A message for one actor and a broadcast of the same content, handled by a handler that is finished
  -- at its first poll, are ready at theirs: both with the actor as the handler leaves it, and with the
  -- end of the actor's loop exactly if its context was stopped; the first with the handler's value as
  -- the answer, the second with none.
  pub dispatch-finished :
      (e : ReturningEnvelope M) (b : BroadcastEnvelope M) (act : A) (mailbox : Mailbox) (cx : Waker)
      (fin : Finished A R)
      → b.message ≡ e.message
      → (H.poll (H.handle act e.message (context mailbox)) cx).0 ≡ ready fin
      → ((poll H (dispatch H (to_one_actor e) act mailbox) cx).0
          ≡ polled (ready (ended fin (some (e.result_sender, fin.value)))))
        × ((poll H (dispatch H (to_all_actors (Envelope.concrete b)) act mailbox) cx).0
            ≡ polled (ready (ended fin none)))
  unfolding poll dispatch poll_state poll_running start handle_to_one handle_to_all poll_fut
  dispatch-finished e b act mailbox cx fin same h = (
    returned-ready (H.poll (H.handle act e.message (context mailbox)) cx) e.result_sender _ fin h,
    broadcasted-ready (H.poll (H.handle act b.message (context mailbox)) cx) _ fin (rw same h),
  )

  -- A shutdown, sent to all actors or met by a receiver without senders, ends the loop of the actor at
  -- the first poll, and leaves the actor as it was.
  pub dispatch-shutdown :
      (act : A) (mailbox : Mailbox) (cx : Waker)
      → ((poll H (dispatch H shutdown act mailbox) cx).0
          ≡ polled (ready (record { flow = break; actor = act; answer = none })))
        × ((poll H (dispatch H (to_all_actors Envelope.shutdown) act mailbox) cx).0
            ≡ polled (ready (record { flow = break; actor = act; answer = none })))
  unfolding poll dispatch poll_state poll_running start handle_to_all poll_fut ran
  dispatch-shutdown act mailbox cx = (refl, refl)
