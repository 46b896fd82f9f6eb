-- ===== src/Dispatch.antt =====
-- xtra/src/dispatch_future.rs, and the `handle` methods of xtra/src/envelope.rs: a message is handed to
-- the handler of an actor. A handler is code of the user, so it is a parameter.
pub mod Progress
pub mod Handling
use xtra.Prelude.{ℕ, Bool, true, false, Option, none, some, if◌then◌else◌}
use xtra.Std.{Poll, ready, pending, ControlFlow, continue, break, Waker}
use xtra.Instrumentation.{Span, in_scope, no_span, apply}
use xtra.Instrumentation
use xtra.Envelope.{ReturningEnvelope, BroadcastEnvelope, concrete}
use xtra.Envelope
use xtra.Chan.State.{ActorMessage, to_one_actor, to_all_actors, shutdown}
use xtra.Mailbox.{Mailbox, Context, from_parts}
use xtra.Recv.{Message}

-- What a handler leaves when it is finished: the actor, the value that it returns and its context.
pub record Finished (A R : Type 0) : Type 0 where
  pub actor : A
  pub value : R
  pub ctx : Context

-- `Handler<M>` of an actor: the future that `handle` gives, and its poll.
pub record Handler (M A R : Type 0) : Type 1 where
  pub Running : Type 0
  pub handle : A → M → Context → Running
  pub poll : Running → Waker → Poll (Finished A R) × Running

-- What `ctx.running` makes of the end of a handler.
unfoldable pub flow_of : Context → ControlFlow
flow_of ctx = if ctx.running then continue else break

-- The context in which a message is handled.
abbrev pub context : Mailbox → Context
context mailbox = record { running = true; mailbox = mailbox }

module _ {M A R : Type 0} (H : Handler M A R) where
  -- The future of a message: of `ReturningEnvelope::handle` with the identity of the one-shot channel for
  -- the answer, of `BroadcastEnvelopeConcrete::handle`, or of `Shutdown::handle`.
  pub data Fut : Type 0 where
    returning : H.Running → ℕ → Fut
    broadcasting : H.Running → Fut
    shutting_down : A → Fut

  unfoldable pub handle_to_one : ReturningEnvelope M → A → Mailbox → Fut × Span
  handle_to_one e act mailbox =
      let (fut, s) = apply e.instrumentation (H.handle act e.message (context mailbox)) in
      (returning fut e.result_sender, s)

  unfoldable pub handle_to_all : Envelope.MessageToAll M → A → Mailbox → Fut × Span
  handle_to_all (concrete e) act mailbox =
      let (fut, s) = apply e.instrumentation (H.handle act e.message (context mailbox)) in
      (broadcasting fut, s)
  handle_to_all Envelope.shutdown act mailbox = (shutting_down act, no_span)

  pub data State : Type 0 where
    new : ActorMessage M → A → Mailbox → State
    running : Fut → State
    done : State

  pub record DispatchFuture : Type 0 where
    pub state : State
    pub span : Span

  -- `DispatchFuture::new`
  unfoldable pub dispatch : ActorMessage M → A → Mailbox → DispatchFuture
  dispatch msg act mailbox = record { state = new msg act mailbox; span = no_span }

  -- `Message::dispatch_to`
  unfoldable pub dispatch_to : Message M → A → DispatchFuture
  unfolding dispatch from_parts
  dispatch_to m act = dispatch m.inner act (from_parts m.channel m.broadcast_mailbox)

  -- `DispatchFuture::running`
  unfoldable pub start : ActorMessage M → A → Mailbox → Fut × Span
  unfolding handle_to_one handle_to_all
  start (to_one_actor msg) act mailbox = handle_to_one msg act mailbox
  start (to_all_actors msg) act mailbox = handle_to_all msg act mailbox
  start shutdown act mailbox = (shutting_down act, no_span)

  -- `DispatchFuture::span`, behind the feature `instrumentation`: the span of the future, which a new
  -- future gets by starting its handler. The spans are those of the stub here.
  span_state : State → Span → DispatchFuture
  span_state (new msg act mailbox) sp =
      let (fut, started) = start msg act mailbox in record { state = running fut; span = started }
  span_state (running fut) sp = record { state = running fut; span = sp }
  span_state done sp = record { state = done; span = sp }

  unfoldable pub span : DispatchFuture → Span × DispatchFuture
  unfolding span_state
  span d = let d' = span_state d.state d.span in (d'.span, d')

  -- What a message leaves behind: the flow of control, the actor, and what was sent as an answer, with
  -- the one-shot channel.
  pub record Ended : Type 0 where
    pub flow : ControlFlow
    pub actor : A
    pub answer : Option (ℕ × R)

  returned : Poll (Finished A R) × H.Running → ℕ → Poll Ended × Fut
  returned (ready fin, run) tx = (
    ready (record { flow = flow_of fin.ctx; actor = fin.actor; answer = some (tx, fin.value) }),
    returning run tx,
  )
  returned (pending, run) tx = (pending, returning run tx)

  broadcasted : Poll (Finished A R) × H.Running → Poll Ended × Fut
  broadcasted (ready fin, run) = (
    ready (record { flow = flow_of fin.ctx; actor = fin.actor; answer = none }),
    broadcasting run,
  )
  broadcasted (pending, run) = (pending, broadcasting run)

  -- One poll of the future of a message.
  unfoldable pub poll_fut : Fut → Waker → Poll Ended × Fut
  unfolding returned broadcasted
  poll_fut (returning run tx) cx = returned (H.poll run cx) tx
  poll_fut (broadcasting run) cx = broadcasted (H.poll run cx)
  poll_fut (shutting_down act) cx =
      (ready (record { flow = break; actor = act; answer = none }), shutting_down act)

  -- What a poll gives, or `panic!`.
  pub data Polled : Type 0 where
    polled : Poll Ended → Polled
    panicked : Polled

  -- The arm `Running`, after the poll.
  ran : Span → Poll Ended × Fut → Polled × DispatchFuture
  ran sp (ready ended, fut) = (polled (ready ended), record { state = done; span = sp })
  ran sp (pending, fut) = (polled pending, record { state = running fut; span = sp })

  -- The arm `Running`, in which `New` ends up as well.
  unfoldable pub poll_running : Fut → Span → Waker → Polled × DispatchFuture
  unfolding ran
  poll_running fut sp cx = ran sp (in_scope sp (λ u. poll_fut fut cx))

  -- `Future for DispatchFuture`
  unfoldable pub poll_state : State → Span → Waker → Polled × DispatchFuture
  unfolding poll_running
  poll_state (new msg act mailbox) sp cx =
      let (fut, started) = start msg act mailbox in poll_running fut started cx
  poll_state (running fut) sp cx = poll_running fut sp cx
  poll_state done sp cx = (panicked, record { state = done; span = sp })

  unfoldable pub poll : DispatchFuture → Waker → Polled × DispatchFuture
  unfolding poll_state
  poll d cx = poll_state d.state d.span cx
