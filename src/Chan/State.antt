-- ===== src/Chan/State.antt =====
-- The state of a channel: `Chan` and the `Inner` behind its mutex in one record, with the objects
-- that the channel shares with others by `Arc`, each under a number. Every operation that locks the
-- mutex is one step.
use xtra.Prelude.{ℕ, Option, none, some, List, if◌then◌else◌, ltb}
use xtra.Std.{Waker}
use xtra.Priority.{ByPriority}
use xtra.BinaryHeap.{BinaryHeap}
use xtra.Envelope.{MessageToOne, MessageToAll}
use xtra.Deps.{Oneshot, EventListeners}
use xtra.WaitingReceiver.{CtrlMsg}
use xtra.WaitingQueue.{WaitingQueue}

-- The crates that a channel of messages `M` calls.
pub record Deps (M : Type 0) : Type 1 where
  pub oneshot : Oneshot (CtrlMsg M)
  pub events : EventListeners

-- A broadcast mailbox with the number of its `Arc`s; the channel itself holds a `Weak`.
pub record Broadcasts (M : Type 0) : Type 0 where
  pub strong : ℕ
  pub queue : BinaryHeap (ByPriority (MessageToAll M))

-- `Weak::upgrade`
abbrev pub upgrade : {M : Type 0} → Broadcasts M → Option (BinaryHeap (ByPriority (MessageToAll M)))
upgrade b = if ltb 0 b.strong then some b.queue else none

pub record Chan {M : Type 0} (D : Deps M) : Type 0 where
  pub capacity : Option ℕ
  pub waiting_send_to_one : WaitingQueue (MessageToOne M)
  pub waiting_send_to_all : WaitingQueue (MessageToAll M)
  pub waiting_receivers_handles : List ℕ
  pub unicast_queue : BinaryHeap (ByPriority (MessageToOne M))
  pub broadcast_queues : List ℕ
  pub broadcast_tail : ℕ
  pub on_shutdown : D.events.Event
  pub sender_count : ℕ
  pub receiver_count : ℕ
  -- what the handles and weak references point to
  pub slots : ℕ → D.oneshot.State
  pub next_slot : ℕ
  pub mailboxes : ℕ → Broadcasts M
  pub next_mailbox : ℕ
  -- the tasks woken so far, the last one at the end
  pub woken : List Waker

pub data ActorMessage (M : Type 0) : Type 0 where
  to_one_actor : MessageToOne M → ActorMessage M
  to_all_actors : MessageToAll M → ActorMessage M
  shutdown : ActorMessage M
