-- ===== src/Run/Task.antt =====
-- The futures of `run` and `yield_once` of xtra/src/lib.rs on a channel, behind `started`. A round
-- is one poll of what `yield_once` awaits, and what the loop then does up to its next await; that
-- the next message is polled is one step in it (`poll_alone`). What the handler and everybody else
-- do to the channel happens between the rounds.
use xtra.Prelude.{ℕ, Option, none, some, List, [], ◌∷◌}
use xtra.Std.{ready, pending, ControlFlow, continue, break, Waker}
use xtra.Chan.State.{Deps, Chan, ActorMessage}
use xtra.Chan.Steps.{drop_mailbox}
use xtra.Ptr
use xtra.Ptr.{Ptr}
use xtra.Mailbox.{Mailbox}
use xtra.Recv
use xtra.Recv.{Receiving}
use xtra.Dispatch
use xtra.Dispatch.{Handler, DispatchFuture, dispatch_to}

-- Where the loop stands: at `next`, at the dispatch of a message, which has its pointer and mailbox with
-- it, behind the loop, or in a panic.
pub data Task {M A R : Type 0} (H : Handler M A R) : Type 0 where
  receiving : A → Receiving → Task H
  dispatching : DispatchFuture H → Ptr → ℕ → Task H
  stopping : A → Task H
  failed : Task H

module _ {M A R : Type 0} {D : Deps M} (H : Handler M A R) (mailbox : Mailbox) where
  -- The `while` of `run`, at the flow of the last message.
  unfoldable pub while_continue : ControlFlow → A → Chan D → Task H × Chan D
  while_continue continue act c = let (recv, c') = Recv.next mailbox c in (receiving act recv, c')
  while_continue break act c = (stopping act, c)

  -- `run` from `started` up to the first await of the loop.
  unfoldable pub begin : A → Chan D → Task H × Chan D
  unfolding while_continue
  begin act c = while_continue continue act c

  -- `yield_once`, after a poll of `next`.
  unfoldable pub after_next : A → Recv.Outcome D → Task H × Chan D
  after_next act (Recv.polled (ready m), recv, c) =
      (dispatching (dispatch_to H m act) m.channel m.broadcast_mailbox, Recv.drop recv c)
  after_next act (Recv.polled pending, recv, c) = (receiving act recv, c)
  after_next act (Recv.panicked, recv, c) = (failed, c)
  after_next act (Recv.looping, recv, c) = (failed, c)

  -- The same after a poll of the dispatch. When it is ready the context is dropped, with its mailbox.
  unfoldable pub after_dispatch :
      Ptr → ℕ → Dispatch.Polled H × DispatchFuture H → Chan D → Task H × Chan D
  unfolding while_continue
  after_dispatch p b (Dispatch.polled (ready e), d) c =
      while_continue e.flow e.actor (drop_mailbox (Ptr.drop p c) b)
  after_dispatch p b (Dispatch.polled pending, d) c = (dispatching d p b, c)
  after_dispatch p b (Dispatch.panicked, d) c = (failed, c)

  -- One round. Nothing more happens behind the loop or after a panic.
  unfoldable pub run_round : Task H → Waker → Chan D → Task H × Chan D
  unfolding after_next after_dispatch
  run_round (receiving act recv) cx c = after_next act (Recv.poll_alone recv cx c)
  run_round (dispatching d p b) cx c = after_dispatch p b (Dispatch.poll H d cx) c
  run_round (stopping act) cx c = (stopping act, c)
  run_round failed cx c = (failed, c)

abbrev pub answers_of : {R : Type 0} → Option (ℕ × R) → List (ℕ × R)
answers_of none = []
answers_of (some answer) = answer ∷ []

abbrev pub taken_by : {M : Type 0} {D : Deps M} → Recv.Outcome D → List (ActorMessage M)
taken_by (Recv.polled (ready m), recv, c) = m.inner ∷ []
taken_by (Recv.polled pending, recv, c) = []
taken_by (Recv.panicked, recv, c) = []
taken_by (Recv.looping, recv, c) = []

module _ {M A R : Type 0} (H : Handler M A R) where
  abbrev pub answered_by : Dispatch.Polled H × DispatchFuture H → List (ℕ × R)
  answered_by (Dispatch.polled (ready e), d) = answers_of e.answer
  answered_by (Dispatch.polled pending, d) = []
  answered_by (Dispatch.panicked, d) = []

  -- The message that a round takes, and the answer that it sends.
  abbrev pub takes : {D : Deps M} → Task H → Waker → Chan D → List (ActorMessage M)
  takes (receiving act recv) cx c = taken_by (Recv.poll_alone recv cx c)
  takes (dispatching d p b) cx c = []
  takes (stopping act) cx c = []
  takes failed cx c = []

  abbrev pub answers : Task H → Waker → List (ℕ × R)
  answers (receiving act recv) cx = []
  answers (dispatching d p b) cx = answered_by (Dispatch.poll H d cx)
  answers (stopping act) cx = []
  answers failed cx = []
