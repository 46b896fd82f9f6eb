-- ===== src/Select.antt =====
-- `select` and `join` of xtra/src/lib.rs: an actor handles messages beside another future. A round
-- is one poll of what the function awaits, and what it then does up to its next await; that the next
-- message is polled is one step in it (`poll_alone`). What the handler, the other future and
-- everybody else do to the channel happens between the rounds. Which of two futures
-- `futures_util::future::select` polls first is not said by its documentation, so it is an argument
-- of a round.
pub mod Places
pub mod Safety
pub mod Joins
pub mod Returns
use xtra.Prelude.{ℕ, Bool, true, false}
use xtra.Std.{Poll, ready, pending, Either, left, right, ControlFlow, continue, break, Waker}
use xtra.Chan.State.{Deps, Chan}
use xtra.Chan.Steps.{drop_mailbox}
use xtra.Ptr
use xtra.Ptr.{Ptr}
use xtra.Mailbox.{Mailbox}
use xtra.Recv
use xtra.Recv.{Receiving, Message}
use xtra.Dispatch
use xtra.Dispatch.{Handler, DispatchFuture, dispatch_to}

-- The other future, which gives a `T`.
pub record UserFuture (T : Type 0) : Type 1 where
  pub State : Type 0
  pub poll : State → Waker → Poll T × State

module _ {M A R T : Type 0} (H : Handler M A R) (F : UserFuture T) where
  -- Where `select` stands: at `future::select(fut, &mut next_msg)`, at the dispatch of the loop, at the
  -- dispatch after the future has won, at its end, or in a panic. A message that is dispatched has its
  -- pointer and mailbox with it.
  pub data Select : Type 0 where
    selecting : A → F.State → Receiving → Select
    dispatching : DispatchFuture H → Ptr → ℕ → F.State → Select
    finishing : T → DispatchFuture H → Ptr → ℕ → Select
    returned : A → Either T F.State → Select
    failed : Select

  -- Where `join` stands: in `select`, at the future alone, or at its end.
  pub data Join : Type 0 where
    joining : Select → Join
    awaiting : A → F.State → Join
    joined : A → T → Join

module _ {M A R T : Type 0} (H : Handler M A R) (F : UserFuture T) where
  -- `join`: the `match` on what `select` gives.
  unfoldable pub after_select : Select H F → Join H F
  after_select (selecting act fut recv) = joining (selecting act fut recv)
  after_select (dispatching d p b fut) = joining (dispatching d p b fut)
  after_select (finishing v d p b) = joining (finishing v d p b)
  after_select (returned act (left v)) = joined act v
  after_select (returned act (right fut)) = awaiting act fut
  after_select failed = joining failed

  -- What a poll of the future alone leads to.
  awaited : A → Poll T × F.State → Join H F
  awaited act (ready v, fut) = joined act v
  awaited act (pending, fut) = awaiting act fut

module _ {M A R T : Type 0} {D : Deps M} (H : Handler M A R) (F : UserFuture T) (mailbox : Mailbox)
    (noop : Waker) where
  -- The context of a handler that has ended is dropped, with the mailbox in it.
  release : Ptr → ℕ → Chan D → Chan D
  release p b c = drop_mailbox (Ptr.drop p c) b

  -- The `while` of `select`, at the flow of the last message.
  unfoldable pub repeat : ControlFlow → A → F.State → Chan D → Select H F × Chan D
  repeat continue act fut c = let (recv, c') = Recv.next mailbox c in (selecting act fut recv, c')
  repeat break act fut c = (returned act (right fut), c)

  -- `select` up to its first await
  unfoldable pub select : A → F.State → Chan D → Select H F × Chan D
  select act fut c = repeat continue act fut c

  -- The arm `Left`, after `now_or_never` has polled the future of the next message, which it drops.
  unfoldable pub won : A → T → Recv.Outcome D → Select H F × Chan D
  won act v (Recv.polled (ready m), recv, c) =
      (finishing v (dispatch_to H m act) m.channel m.broadcast_mailbox, Recv.drop recv c)
  won act v (Recv.polled pending, recv, c) = (returned act (left v), Recv.drop recv c)
  won act v (Recv.panicked, recv, c) = (failed, c)
  won act v (Recv.looping, recv, c) = (failed, c)

  -- The arm `Right`.
  unfoldable pub taken : A → Message M → F.State → Receiving × Chan D → Select H F × Chan D
  taken act m unfinished (recv, c) =
      (dispatching (dispatch_to H m act) m.channel m.broadcast_mailbox unfinished, Recv.drop recv c)

  -- The other future is polled first, and has been.
  unfoldable pub fut_pending : A → F.State → Recv.Outcome D → Select H F × Chan D
  unfolding taken
  fut_pending act fut (Recv.polled (ready m), recv, c) = taken act m fut (recv, c)
  fut_pending act fut (Recv.polled pending, recv, c) = (selecting act fut recv, c)
  fut_pending act fut (Recv.panicked, recv, c) = (failed, c)
  fut_pending act fut (Recv.looping, recv, c) = (failed, c)

  unfoldable pub fut_first : A → Receiving → Waker → Chan D → Poll T × F.State → Select H F × Chan D
  unfolding won fut_pending
  fut_first act recv cx c (ready v, fut) = won act v (Recv.poll_alone recv noop c)
  fut_first act recv cx c (pending, fut) = fut_pending act fut (Recv.poll_alone recv cx c)

  -- The next message is polled first, and has been.
  unfoldable pub fut_second : A → Receiving → Chan D → Poll T × F.State → Select H F × Chan D
  unfolding won
  fut_second act recv c (ready v, fut) = won act v (Recv.poll_alone recv noop c)
  fut_second act recv c (pending, fut) = (selecting act fut recv, c)

  unfoldable pub message_first : A → F.State → Waker → Recv.Outcome D → Select H F × Chan D
  unfolding taken fut_second
  message_first act fut cx (Recv.polled (ready m), recv, c) = taken act m fut (recv, c)
  message_first act fut cx (Recv.polled pending, recv, c) = fut_second act recv c (F.poll fut cx)
  message_first act fut cx (Recv.panicked, recv, c) = (failed, c)
  message_first act fut cx (Recv.looping, recv, c) = (failed, c)

  -- One poll of `future::select`; the test says whether it polls the other future first.
  unfoldable pub select_either :
      Bool → A → F.State → Receiving → Waker → Chan D → Select H F × Chan D
  unfolding fut_first message_first
  select_either true act fut recv cx c = fut_first act recv cx c (F.poll fut cx)
  select_either false act fut recv cx c = message_first act fut cx (Recv.poll_alone recv cx c)

  -- After a poll of the dispatch of the loop, and of the last dispatch.
  unfoldable pub dispatched :
      Ptr → ℕ → F.State → Dispatch.Polled H × DispatchFuture H → Chan D → Select H F × Chan D
  unfolding repeat release
  dispatched p b fut (Dispatch.polled (ready e), d) c = repeat e.flow e.actor fut (release p b c)
  dispatched p b fut (Dispatch.polled pending, d) c = (dispatching d p b fut, c)
  dispatched p b fut (Dispatch.panicked, d) c = (failed, c)

  unfoldable pub finished :
      Ptr → ℕ → T → Dispatch.Polled H × DispatchFuture H → Chan D → Select H F × Chan D
  unfolding release
  finished p b v (Dispatch.polled (ready e), d) c = (returned e.actor (left v), release p b c)
  finished p b v (Dispatch.polled pending, d) c = (finishing v d p b, c)
  finished p b v (Dispatch.panicked, d) c = (failed, c)

  -- One round of `select`. Nothing more happens after its end or after a panic.
  unfoldable pub select_round : Bool → Select H F → Waker → Chan D → Select H F × Chan D
  unfolding select_either dispatched finished
  select_round first (selecting act fut recv) cx c = select_either first act fut recv cx c
  select_round first (dispatching d p b fut) cx c = dispatched p b fut (Dispatch.poll H d cx) c
  select_round first (finishing v d p b) cx c = finished p b v (Dispatch.poll H d cx) c
  select_round first (returned act r) cx c = (returned act r, c)
  select_round first failed cx c = (failed, c)

  -- `join` up to its first await
  unfoldable pub join : A → F.State → Chan D → Join H F × Chan D
  unfolding after_select select
  join act fut c = let (s, c') = select act fut c in (after_select H F s, c')

  -- One round of `join`.
  unfoldable pub join_round : Bool → Join H F → Waker → Chan D → Join H F × Chan D
  unfolding after_select select_round awaited
  join_round first (joining s) cx c =
      let (s', c') = select_round first s cx c in (after_select H F s', c')
  join_round first (awaiting act fut) cx c = (awaited H F act (F.poll fut cx), c)
  join_round first (joined act v) cx c = (joined act v, c)
