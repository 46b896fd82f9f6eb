-- ===== src/WaitingSender.antt =====
-- xtra/src/chan/waiting_sender.rs: a message that waits for room, shared by the future of its sender
-- (`WaitingSender`, which owns it) and the channel (`Handle`, a weak reference). A `spin::Mutex`
-- guards it, so each operation is one step.
pub mod Laws
use xtra.Prelude.{ℕ, ◌≡◌, Bool, true, false, Option, none, some, List, [], ◌∷◌, if◌then◌else◌}
use xtra.Std.{Poll, ready, pending, Result, ok, err, Waker}
use xtra.Priority.{Priority, HasPriority, priority}
use xtra.Error.{Error, disconnected}

pub data Inner (M : Type 0) : Type 0 where
  active : Option Waker → M → Inner M
  delivered : Inner M
  closed : Inner M

-- What the `Arc` holds, and whether the `WaitingSender`, its only strong reference, still exists.
pub record Cell (M : Type 0) : Type 0 where
  pub inner : Inner M
  pub alive : Bool

-- The tasks that an `Option<Waker>` wakes.
abbrev pub wake : Option Waker → List Waker
wake none = []
wake (some w) = w ∷ []

module _ {M : Type 0} where
  -- `WaitingSender::new`, with `Inner::new`
  unfoldable pub new : M → Cell M
  new msg = record { inner = active none msg; alive = true }

  unfoldable pub is_active : Cell M → Bool
  is_active c = c.alive

  take_inner : Inner M → Option M × List Waker
  take_inner (active waker message) = (some message, wake waker)
  take_inner delivered = (none, [])
  take_inner closed = (none, [])

  -- The message, the state left behind, and the tasks woken.
  unfoldable pub take_message : Cell M → Option M × Cell M × List Waker
  unfolding take_inner
  take_message c =
      let (message, woken) = take_inner c.inner in
      if c.alive then (message, record c { inner = delivered }, woken) else (none, c, [])

  drop_inner : Inner M → Inner M × List Waker
  drop_inner (active waker message) = (closed, wake waker)
  drop_inner delivered = (delivered, [])
  drop_inner closed = (closed, [])

  -- `Drop for Handle`
  unfoldable pub drop_handle : Cell M → Cell M × List Waker
  unfolding drop_inner
  drop_handle c =
      let (inner, woken) = drop_inner c.inner in
      if c.alive then (record c { inner = inner }, woken) else (c, [])

  poll_inner : Inner M → Waker → Poll (Result (Unit {0}) Error) × Inner M
  poll_inner (active waker message) cx = (pending, active (some cx) message)
  poll_inner delivered cx = (ready (ok tt), delivered)
  poll_inner closed cx = (ready (err disconnected), closed)

  -- `Future for WaitingSender`
  unfoldable pub poll : Cell M → Waker → Poll (Result (Unit {0}) Error) × Cell M
  unfolding poll_inner
  poll c cx = let (result, inner) = poll_inner c.inner cx in (result, record c { inner = inner })

  -- The future is dropped: the weak reference can no longer be upgraded.
  unfoldable pub drop_sender : Cell M → Cell M
  drop_sender c = record c { alive = false }

module _ {M : Type 0} ⦃h : HasPriority M⦄ where
  priority_inner : Inner M → Option Priority
  priority_inner (active waker message) = some (priority message)
  priority_inner delivered = none
  priority_inner closed = none

  -- `Handle::priority`
  unfoldable pub handle_priority : Cell M → Option Priority
  unfolding priority_inner
  handle_priority c = if c.alive then priority_inner c.inner else none
