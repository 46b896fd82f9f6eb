-- ===== src/Send.antt =====
-- xtra/src/send_future.rs: the future of a message that is sent. A poll is one step of its task.
pub mod Waiting
pub mod Progress
pub mod Fate
pub mod Refused
pub mod Answers
use xtra.Prelude.{ℕ, Bool, true, false, Option, none, some, if◌then◌else◌}
use xtra.Std.{Poll, ready, pending, Result, ok, err, Waker}
use xtra.Error.{Error, interrupted}
use xtra.Deps.{Oneshot}
use xtra.Envelope.{
  MessageToOne, MessageToAll, concrete, returning_envelope, broadcast_envelope, set_priority_to_one,
  set_priority_to_all,
}
use xtra.WaitingQueue.{WaitingQueue, poll_sender}
use xtra.Chan.State.{Deps, Chan}
use xtra.Chan.Methods.{Sent, accepted, mailbox_full, try_send_to_one, try_send_to_all}
use xtra.Chan.Steps.{drop_to_one, drop_to_all}
use xtra.Ptr
use xtra.Ptr.{Ptr}
use xtra.Address.{Address}

pub data Sending (A : Type 0) : Type 0 where
  new : A → Ptr → Sending A
  waiting_to_send : ℕ → Sending A
  done : Sending A

-- What a poll gives, or `panic!`.
pub data Polled (R : Type 0) : Type 0 where
  polled : Poll (Result R Error) → Polled R
  panicked : Polled R

abbrev pub Outcome : {M : Type 0} → Deps M → Type 0 → Type 0
Outcome D A = Polled (Unit {0}) × Sending A × Chan D

-- `FusedFuture for Sending`
abbrev pub is_terminated : {A : Type 0} → Sending A → Bool
is_terminated (new msg sender) = false
is_terminated (waiting_to_send h) = false
is_terminated done = true

module _ {M : Type 0} {D : Deps M} where
  -- The arm `WaitingToSend`. The waiting sender is dropped unless it goes on waiting.
  unfoldable pub waited_to_one :
      ℕ
      → Chan D
      → Poll (Result (Unit {0}) Error) × WaitingQueue (MessageToOne M)
      → Outcome D (MessageToOne M)
  waited_to_one h c (ready r, q) =
      (polled (ready r), done, drop_to_one (record c { waiting_send_to_one = q }) h)
  waited_to_one h c (pending, q) =
      (polled pending, waiting_to_send h, record c { waiting_send_to_one = q })

  unfoldable pub poll_waiting_to_one : ℕ → Waker → Chan D → Outcome D (MessageToOne M)
  unfolding waited_to_one
  poll_waiting_to_one h cx c = waited_to_one h c (poll_sender c.waiting_send_to_one h cx)

  -- What becomes of the result of `try_send_to_one`, once the pointer has been dropped. A message that
  -- waits goes round the loop again.
  unfoldable pub sent_to_one : Result Sent Error → Waker → Chan D → Outcome D (MessageToOne M)
  sent_to_one (err e) cx c = (polled (ready (err e)), done, c)
  sent_to_one (ok accepted) cx c = (polled (ready (ok tt)), done, c)
  sent_to_one (ok (mailbox_full h)) cx c = poll_waiting_to_one h cx c

  -- `Future for Sending<A, MessageToOne<A>, Rc>`
  unfoldable pub poll_to_one :
      Sending (MessageToOne M) → Waker → Chan D → Outcome D (MessageToOne M)
  unfolding sent_to_one poll_waiting_to_one
  poll_to_one (new msg sender) cx c =
      let (result, c') = try_send_to_one c msg in sent_to_one result cx (Ptr.drop sender c')
  poll_to_one (waiting_to_send h) cx c = poll_waiting_to_one h cx c
  poll_to_one done cx c = (panicked, done, c)

  -- The same for a broadcast.
  unfoldable pub waited_to_all :
      ℕ
      → Chan D
      → Poll (Result (Unit {0}) Error) × WaitingQueue (MessageToAll M)
      → Outcome D (MessageToAll M)
  waited_to_all h c (ready r, q) =
      (polled (ready r), done, drop_to_all (record c { waiting_send_to_all = q }) h)
  waited_to_all h c (pending, q) =
      (polled pending, waiting_to_send h, record c { waiting_send_to_all = q })

  unfoldable pub poll_waiting_to_all : ℕ → Waker → Chan D → Outcome D (MessageToAll M)
  unfolding waited_to_all
  poll_waiting_to_all h cx c = waited_to_all h c (poll_sender c.waiting_send_to_all h cx)

  unfoldable pub sent_to_all : Result Sent Error → Waker → Chan D → Outcome D (MessageToAll M)
  sent_to_all (err e) cx c = (polled (ready (err e)), done, c)
  sent_to_all (ok accepted) cx c = (polled (ready (ok tt)), done, c)
  sent_to_all (ok (mailbox_full h)) cx c = poll_waiting_to_all h cx c

  -- `Future for Sending<A, MessageToAll<A>, Rc>`
  unfoldable pub poll_to_all :
      Sending (MessageToAll M) → Waker → Chan D → Outcome D (MessageToAll M)
  unfolding sent_to_all poll_waiting_to_all
  poll_to_all (new msg sender) cx c =
      let (result, c') = try_send_to_all c msg in sent_to_all result cx (Ptr.drop sender c')
  poll_to_all (waiting_to_send h) cx c = poll_waiting_to_all h cx c
  poll_to_all done cx c = (panicked, done, c)

-- `SetPriority for Sending`, for either kind of message; `none` is the panic after the first poll.
-- `Arc::get_mut` succeeds, as the message has not been cloned before it is sent.
unfoldable pub set_priority : {A : Type 0} → (A → ℕ → A) → Sending A → ℕ → Option (Sending A)
set_priority set (new msg sender) p = some (new (set msg p) sender)
set_priority set (waiting_to_send h) p = none
set_priority set done p = none

pub record SendFuture (A S : Type 0) : Type 0 where
  pub sending : Sending A
  pub state : S

-- `SendFuture::priority`; the wrappers `ActorNamedSending`, `ActorNamedBroadcasting` and
-- `ActorErasedSending` pass it on to `Sending`.
unfoldable pub priority :
    {A S : Type 0} → (A → ℕ → A) → SendFuture A S → ℕ → Option (SendFuture A S)
unfolding set_priority
priority set f new_priority = elim (set_priority set f.sending new_priority) [
  | none ↦ none
  | some sending ↦ some (record f { sending = sending })
]

module _ {M : Type 0} where
  -- `sending_named` and `sending_erased`, with the pointer that the caller has cloned; the state is the
  -- fresh one-shot channel numbered `tx`.
  unfoldable pub sending_named : M → Ptr → ℕ → SendFuture (MessageToOne M) ℕ
  sending_named message sender tx = record {
    sending = new (returning_envelope message 0 tx) sender;
    state = tx;
  }

  -- `broadcast_named` and `broadcast_erased`
  unfoldable pub broadcast_named : M → Ptr → SendFuture (MessageToAll M) (Unit {0})
  broadcast_named msg sender = record {
    sending = new (concrete (broadcast_envelope msg 0)) sender;
    state = tt;
  }

module _ {M : Type 0} {D : Deps M} where
  -- `Address::send` and `Address::broadcast`
  unfoldable pub send : Address → M → ℕ → Chan D → SendFuture (MessageToOne M) ℕ × Chan D
  send a message tx c =
      let (sender, c') = Ptr.clone a.ptr c in (sending_named message sender tx, c')

  unfoldable pub broadcast : Address → M → Chan D → SendFuture (MessageToAll M) (Unit {0}) × Chan D
  broadcast a msg c = let (sender, c') = Ptr.clone a.ptr c in (broadcast_named msg sender, c')

module _ {R : Type 0} (O : Oneshot R) where
  received_answer : Option (Option R) → Poll (Result R Error)
  received_answer none = pending
  received_answer (some none) = ready (err interrupted)
  received_answer (some (some r)) = ready (ok r)

  -- `Future for Receiver`
  unfoldable pub poll_receiver : O.State → Waker → Poll (Result R Error) × O.State
  unfolding received_answer
  poll_receiver s cx = let (got, s') = O.poll s cx in (received_answer got, s')

module _ {R : Type 0} (O : Oneshot R) where
  -- What `Future for SendFuture<F, ResolveToHandlerReturn<R>>` does after a poll of `sending`.
  unfoldable pub after_sending : Polled (Unit {0}) → O.State → Waker → Polled R × O.State
  unfolding poll_receiver
  after_sending (polled (ready (ok u))) s cx =
      let (answer, s') = poll_receiver O s cx in (polled answer, s')
  after_sending (polled (ready (err e))) s cx = (polled (ready (err e)), s)
  after_sending (polled pending) s cx = (polled pending, s)
  after_sending panicked s cx = (panicked, s)

module _ {M R : Type 0} {D : Deps M} (O : Oneshot R) where
  -- The future that resolves to what the handler returns, with the one-shot channel for that.
  unfoldable pub poll_return :
      Sending (MessageToOne M)
      → O.State
      → Waker
      → Chan D
      → Polled R × O.State × Sending (MessageToOne M) × Chan D
  unfolding after_sending
  poll_return sending s cx c =
      let (sent, sending', c') = poll_to_one sending cx c in
      let (answer, s') = after_sending O sent s cx in
      let (answer', s'') = poll_receiver O s cx in
      if is_terminated sending
      then (polled answer', s'', sending, c)
      else (answer, s', sending', c')

module _ {M : Type 0} {D : Deps M} where
  -- `Future for SendFuture<F, Broadcast>`
  unfoldable pub poll_broadcast :
      Sending (MessageToAll M)
      → Waker
      → Chan D
      → Polled (Unit {0}) × Sending (MessageToAll M) × Chan D
  poll_broadcast sending cx c = poll_to_all sending cx c

-- The receiver is kept until the message is sent.
resolve_to_receiver : ℕ → Option ℕ
resolve_to_receiver receiver = some receiver

unfoldable pub detach :
    {M : Type 0} → SendFuture (MessageToOne M) ℕ → SendFuture (MessageToOne M) (Option ℕ)
unfolding resolve_to_receiver
detach f = record { sending = f.sending; state = resolve_to_receiver f.state }

-- What `Future for SendFuture<F, ResolveToReceiver<R>>` does after a poll of `sending`: it gives the
-- receiver away, once.
unfoldable pub hand_out : Polled (Unit {0}) → Option ℕ → Polled ℕ × Option ℕ
hand_out (polled (ready (ok u))) (some receiver) = (polled (ready (ok receiver)), none)
hand_out (polled (ready (ok u))) none = (panicked, none)
hand_out (polled (ready (err e))) state = (polled (ready (err e)), state)
hand_out (polled pending) state = (polled pending, state)
hand_out panicked state = (panicked, state)

module _ {M : Type 0} {D : Deps M} where
  -- `Future for SendFuture<F, ResolveToReceiver<R>>`
  unfoldable pub poll_detached :
      SendFuture (MessageToOne M) (Option ℕ)
      → Waker
      → Chan D
      → Polled ℕ × SendFuture (MessageToOne M) (Option ℕ) × Chan D
  unfolding hand_out
  poll_detached f cx c =
      let (sent, sending, c') = poll_to_one f.sending cx c in
      let (given, state) = hand_out sent f.state in
      let (given', state') = hand_out (polled (ready (ok tt))) f.state in
      if is_terminated f.sending
      then (given', record f { state = state' }, c)
      else (given, record { sending = sending; state = state }, c')

  -- The drop of a `Sending`: its pointer, or its waiting sender with the message.
  unfoldable pub drop_sending : Sending (MessageToOne M) → Chan D → Chan D
  drop_sending (new msg sender) c = Ptr.drop sender c
  drop_sending (waiting_to_send h) c = drop_to_one c h
  drop_sending done c = c
