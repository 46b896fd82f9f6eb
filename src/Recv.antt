-- ===== src/Recv.antt =====
-- xtra/src/recv_future.rs and `WaitingReceiver::poll` of xtra/src/chan/waiting_receiver.rs: the future
-- of a message that is received. A round of the loop of
-- its poll is one step, since each round locks the channel anew.
pub mod Loop
pub mod Cancel
pub mod Keeps
use xtra.Prelude.{ℕ, zero, suc, Bool, true, false, Option, none, some, update}
use xtra.Std.{Poll, ready, pending, Result, ok, err, Waker}
use xtra.Envelope.{MessageToOne, MessageToAll}
use xtra.Deps.{Oneshot}
use xtra.Chan.Methods
use xtra.WaitingReceiver.{CtrlMsg, new_message, new_broadcast, cancel}
use xtra.WaitingReceiver
use xtra.Chan.State.{Deps, Chan, ActorMessage, to_one_actor, to_all_actors}
use xtra.Chan.State
use xtra.Chan.Methods.{Received, received, try_recv, next_broadcast_message, requeue_message}
use xtra.Chan.Steps.{set_slot, clone_mailbox, drop_mailbox}
use xtra.Mailbox.{Mailbox}
use xtra.Ptr
use xtra.Ptr.{Ptr}

module _ {M : Type 0} {D : Deps M} where
  -- The message for which a receiver was woken by a broadcast, if it is still there.
  broadcast_message : Option (MessageToAll M) × Chan D → Poll (Option (ActorMessage M)) × Chan D
  broadcast_message (none, c) = (ready none, c)
  broadcast_message (some msg, c) = (ready (some (to_all_actors msg)), c)

  -- What `WaitingReceiver::poll` makes of what the one-shot channel gives.
  unfoldable pub woken_with :
      Option (Option (CtrlMsg M)) → ℕ → Chan D → Poll (Option (ActorMessage M)) × Chan D
  unfolding broadcast_message
  woken_with none b c = (pending, c)
  woken_with (some none) b c = (ready none, c)
  woken_with (some (some (new_message msg))) b c = (ready (some (to_one_actor msg)), c)
  woken_with (some (some WaitingReceiver.shutdown)) b c = (ready (some State.shutdown), c)
  woken_with (some (some new_broadcast)) b c = broadcast_message (next_broadcast_message c b)

  -- `WaitingReceiver::poll`
  unfoldable pub poll_waiting_receiver :
      ℕ → ℕ → Waker → Chan D → Poll (Option (ActorMessage M)) × Chan D
  unfolding woken_with
  poll_waiting_receiver rx b cx c =
      let (got, s) = D.oneshot.poll (c.slots rx) cx in woken_with got b (set_slot c rx s)

-- `Waiting` is one of the states: its pointer and the mailbox are there until the future is done.
pub data Receiving : Type 0 where
  new : Ptr → ℕ → Receiving
  waiting : Ptr → ℕ → ℕ → Receiving
  done : Receiving

-- `FusedFuture for Receiving` and for `ReceiveFuture`
abbrev pub is_terminated : Receiving → Bool
is_terminated (new p b) = false
is_terminated (waiting p b rx) = false
is_terminated done = true

module _ {M : Type 0} {D : Deps M} where
  -- `Mailbox::next` of xtra/src/mailbox.rs: the future has a pointer and an `Arc` of its own.
  unfoldable pub next : Mailbox → Chan D → Receiving × Chan D
  next m c =
      let (p, c') = Ptr.clone m.inner c in
      (new p m.broadcast_mailbox, clone_mailbox c' m.broadcast_mailbox)

pub record Message (M : Type 0) : Type 0 where
  pub inner : ActorMessage M
  pub channel : Ptr
  pub broadcast_mailbox : ℕ

-- What a poll gives: a `Poll`, a panic, or nothing yet, when the rounds of the loop have run out.
pub data Polled (M : Type 0) : Type 0 where
  polled : Poll (Message M) → Polled M
  panicked : Polled M
  looping : Polled M

abbrev pub Outcome : {M : Type 0} → Deps M → Type 0
Outcome {M} D = Polled M × Receiving × Chan D

-- What one round of the loop leads to: the end of the poll, or the state of the next round.
pub data Round {M : Type 0} (D : Deps M) : Type 0 where
  returns : Polled M → Receiving → Chan D → Round D
  again : Receiving → Chan D → Round D

module _ {M : Type 0} where
  given : ActorMessage M → Ptr → ℕ → Polled M
  given m p b = polled (ready (record { inner = m; channel = p; broadcast_mailbox = b }))

module _ {M : Type 0} {D : Deps M} where
  -- The arm `New` of the loop. `Waiting`, when it has resolved, is dropped with nothing left to requeue.
  unfoldable pub new_round : Ptr → ℕ → Received M × Chan D → Round D
  unfolding given
  new_round p b (received m, c) = returns (given m p b) done c
  new_round p b (Received.waiting rx, c) = again (waiting p b rx) c
  new_round p b (Received.panicked, c) = returns panicked done c

  -- `Future for Waiting`, by what its receiver gives. When it is ready it gives up the pointer and the
  -- mailbox, with the message if there is one; until then they are there, so no `expect` fails.
  unfoldable pub poll_waiting :
      Ptr
      → ℕ
      → Poll (Option (ActorMessage M)) × Chan D
      → Poll (Result (ActorMessage M × Ptr × ℕ) (Ptr × ℕ)) × Chan D
  poll_waiting p b (pending, c) = (pending, c)
  poll_waiting p b (ready (some msg), c) = (ready (ok (msg, p, b)), c)
  poll_waiting p b (ready none, c) = (ready (err (p, b)), c)

  -- The arm `Waiting`.
  unfoldable pub waiting_arm :
      Ptr → ℕ → ℕ → Poll (Result (ActorMessage M × Ptr × ℕ) (Ptr × ℕ)) × Chan D → Round D
  unfolding given
  waiting_arm p b rx (ready (ok (msg, channel, mailbox)), c) =
      returns (given msg channel mailbox) done c
  waiting_arm p b rx (ready (err (channel, mailbox)), c) = again (new channel mailbox) c
  waiting_arm p b rx (pending, c) = returns (polled pending) (waiting p b rx) c

  unfoldable pub waiting_round : Ptr → ℕ → ℕ → Poll (Option (ActorMessage M)) × Chan D → Round D
  unfolding waiting_arm poll_waiting
  waiting_round p b rx r = waiting_arm p b rx (poll_waiting p b r)

  unfoldable pub round : Receiving → Waker → Chan D → Round D
  unfolding new_round waiting_round
  round (new p b) cx c = new_round p b (try_recv c b)
  round (waiting p b rx) cx c = waiting_round p b rx (poll_waiting_receiver rx b cx c)
  round done cx c = returns panicked done c

  continue_with : (Receiving → Chan D → Outcome D) → Round D → Outcome D
  continue_with next (returns r s c) = (r, s, c)
  continue_with next (again s c) = next s c

  -- The loop with a number of rounds. Each round locks the channel anew, so before each round but the
  -- first others may change the channel: `others` says what they do before the round with that many
  -- rounds to come after it.
  unfoldable pub poll_loop : (ℕ → Chan D → Chan D) → ℕ → Receiving → Waker → Chan D → Outcome D
  unfolding continue_with
  poll_loop others zero s cx c = (looping, s, c)
  poll_loop others (suc fuel) s cx c =
      continue_with (λ t d. poll_loop others fuel t cx (others fuel d)) (round s cx c)

  -- `Future for Receiving`, when nobody else locks the channel between the rounds: three are enough.
  unfoldable pub poll_alone : Receiving → Waker → Chan D → Outcome D
  poll_alone s cx c = poll_loop (λ n d. d) 3 s cx c

  -- `Drop for Waiting`, and then for the pointer and the `Arc` of the mailbox.
  requeued : Option (MessageToOne M) → Chan D → Chan D
  requeued none c = c
  requeued (some msg) c = requeue_message c msg

  unfoldable pub drop_waiting : ℕ → Chan D → Chan D
  unfolding requeued
  drop_waiting rx c = let (msg, s) = cancel D.oneshot (c.slots rx) in requeued msg (set_slot c rx s)

  unfoldable pub drop : Receiving → Chan D → Chan D
  drop (new p b) c = drop_mailbox (Ptr.drop p c) b
  drop (waiting p b rx) c =
      let c' = Ptr.drop p (drop_waiting rx c) in
      let c'' = drop_mailbox c' b in set_slot c'' rx (D.oneshot.drop_receiver (c''.slots rx))
  drop done c = c
