-- ===== src/Chan/Steps.antt =====
-- One step of anybody on a channel: an operation of xtra/src/chan.rs under its lock, or what the owner
-- of a `WaitingSender`, a `WaitingReceiver` or a broadcast mailbox does with it. The check of the
-- connection in `try_send_to_one` and `try_send_to_all` is made before the lock is taken, so what
-- follows it is a step in any state.
use xtra.Prelude.{ℕ, suc, ◌-◌, ◌≡◌, true, ltb, update}
use xtra.Std.{Waker}
use xtra.Envelope.{MessageToOne, MessageToAll}
use xtra.WaitingReceiver.{cancel}
use xtra.WaitingQueue
use xtra.Chan.State.{Deps, Chan}
use xtra.Chan.Methods.{
  on_receiver_created, on_sender_created, on_receiver_dropped, on_sender_dropped,
  new_broadcast_mailbox, queue_to_one, queue_to_all, try_recv, shutdown_all_receivers,
  disconnect_listener, requeue_message, next_broadcast_message,
}

module _ {M : Type 0} {D : Deps M} where
  open D use {oneshot}

  -- The owner of a waiting sender polls it or drops it.
  unfoldable pub poll_to_one : Chan D → ℕ → Waker → Chan D
  poll_to_one c h w = record c {
    waiting_send_to_one = (WaitingQueue.poll_sender c.waiting_send_to_one h w).1;
  }

  unfoldable pub poll_to_all : Chan D → ℕ → Waker → Chan D
  poll_to_all c h w = record c {
    waiting_send_to_all = (WaitingQueue.poll_sender c.waiting_send_to_all h w).1;
  }

  unfoldable pub drop_to_one : Chan D → ℕ → Chan D
  drop_to_one c h = record c {
    waiting_send_to_one = WaitingQueue.drop_sender c.waiting_send_to_one h;
  }

  unfoldable pub drop_to_all : Chan D → ℕ → Chan D
  drop_to_all c h = record c {
    waiting_send_to_all = WaitingQueue.drop_sender c.waiting_send_to_all h;
  }

  -- The owner of a waiting receiver polls it, cancels it or drops it.
  unfoldable pub set_slot : Chan D → ℕ → oneshot.State → Chan D
  set_slot c rx s = record c { slots = update c.slots rx s }

  -- An `Arc` of a broadcast mailbox is cloned or dropped.
  unfoldable pub clone_mailbox : Chan D → ℕ → Chan D
  clone_mailbox c b = record c {
    mailboxes =
        update c.mailboxes b (record (c.mailboxes b) { strong = suc (c.mailboxes b).strong });
  }

  unfoldable pub drop_mailbox : Chan D → ℕ → Chan D
  drop_mailbox c b = record c {
    mailboxes =
        update c.mailboxes b (record (c.mailboxes b) { strong = (c.mailboxes b).strong - 1 });
  }

  pub data Step (c : Chan D) : Chan D → Type 0 where
    sender_created : Step c (on_sender_created c)
    sender_dropped : Step c (on_sender_dropped c)
    receiver_created : Step c (on_receiver_created c)
    receiver_dropped : Step c (on_receiver_dropped c)
    mailbox_created : Step c (new_broadcast_mailbox c).1
    sends_to_one : (msg : MessageToOne M) → Step c (queue_to_one c msg).1
    sends_to_all : (msg : MessageToAll M) → Step c (queue_to_all c msg).1
    receives : (b : ℕ) → Step c (try_recv c b).1
    stops_all : Step c (shutdown_all_receivers c)
    listens : Step c (disconnect_listener c).1
    requeues : (msg : MessageToOne M) → Step c (requeue_message c msg)
    takes_broadcast : (b : ℕ) → Step c (next_broadcast_message c b).1
    polls_to_one : (h : ℕ) (w : Waker) → Step c (poll_to_one c h w)
    polls_to_all : (h : ℕ) (w : Waker) → Step c (poll_to_all c h w)
    drops_to_one : (h : ℕ) → Step c (drop_to_one c h)
    drops_to_all : (h : ℕ) → Step c (drop_to_all c h)
    polls_slot : (rx : ℕ) (w : Waker) → Step c (set_slot c rx (oneshot.poll (c.slots rx) w).1)
    cancels_slot : (rx : ℕ) → Step c (set_slot c rx (cancel oneshot (c.slots rx)).1)
    drops_slot : (rx : ℕ) → Step c (set_slot c rx (oneshot.drop_receiver (c.slots rx)))
    clones_mailbox : (b : ℕ) → ltb 0 (c.mailboxes b).strong ≡ true → Step c (clone_mailbox c b)
    drops_mailbox : (b : ℕ) → Step c (drop_mailbox c b)

  pub data Steps (c : Chan D) : Chan D → Type 0 where
    here : Steps c c
    next : {d e : Chan D} → Steps c d → Step d e → Steps c e
