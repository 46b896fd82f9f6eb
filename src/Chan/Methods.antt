-- ===== src/Chan/Methods.antt =====
-- `impl Chan` of xtra/src/chan.rs. A panic of a user's code under the mutex (the
-- drop of a message, a waker), which would poison it, is not modelled.
pub mod Cases
use xtra.Prelude.{
  ℕ, suc, ◌+◌, ◌%◌, Bool, true, false, ◌&&◌, Option, none, some, [], ◌∷◌, ◌++◌, if◌then◌else◌, ltb,
  ◌==◌, update, Ordering, is_some,
}
use xtra.Std.{Result, ok, err, wrapping_inc, wrapping_dec, usize_mod}
use xtra.Priority.{Priority, by_priority_has_priority, priority, cmp_option}
use xtra.BinaryHeap
use mathlib.Core.Option
use xtra.Envelope.{
  MessageToOne, MessageToAll, to_one_has_priority, to_all_has_priority, start_span_to_one,
  start_span_to_all,
}
use xtra.Envelope
use xtra.Error.{Error, disconnected}
use xtra.WaitingReceiver.{notify_channel_shutdown}
use xtra.WaitingQueue
use xtra.WaitingQueue.{WaitingQueue}
use xtra.Chan.State.{Deps, Chan, ActorMessage, to_one_actor, to_all_actors}
use xtra.Chan.Inner.{
  push_unicast, notify_each, is_unicast_full, is_broadcast_full, try_fulfill_receiver,
  send_broadcast, pop_unicast, pop_broadcast,
}

-- How a message that may be sent ends up: in the mailbox or with a receiver, or with a
-- `WaitingSender`, by its number.
pub data Sent : Type 0 where
  accepted : Sent
  mailbox_full : ℕ → Sent

-- What `try_recv` gives: a message, a `WaitingReceiver` by its number, or the panic of an `unwrap`.
pub data Received (M : Type 0) : Type 0 where
  received : ActorMessage M → Received M
  waiting : ℕ → Received M
  panicked : Received M

-- `Chan::new` with `Inner::new`
unfoldable pub new : {M : Type 0} (D : Deps M) → Option ℕ → Chan D
unfolding WaitingQueue.empty
new D capacity = record {
  capacity = capacity;
  waiting_send_to_one = WaitingQueue.empty;
  waiting_send_to_all = WaitingQueue.empty;
  waiting_receivers_handles = [];
  unicast_queue = BinaryHeap.empty;
  broadcast_queues = [];
  broadcast_tail = 0;
  on_shutdown = D.events.fresh;
  sender_count = 0;
  receiver_count = 0;
  slots = λ rx. D.oneshot.fresh;
  next_slot = 0;
  mailboxes = λ b. record { strong = 0; queue = BinaryHeap.empty };
  next_mailbox = 0;
  woken = [];
}

module _ {M : Type 0} {D : Deps M} where
  open D use {oneshot, events}

  unfoldable pub on_receiver_created : Chan D → Chan D
  on_receiver_created c = record c { receiver_count = wrapping_inc c.receiver_count }

  unfoldable pub on_sender_created : Chan D → Chan D
  on_sender_created c = record c { sender_count = wrapping_inc c.sender_count }

  unfoldable pub shutdown_waiting_receivers : Chan D → Chan D
  shutdown_waiting_receivers c = record c {
    waiting_receivers_handles = [];
    slots = notify_each D (notify_channel_shutdown oneshot) c.waiting_receivers_handles c.slots;
  }

  unfoldable pub shutdown_waiting_senders : Chan D → Chan D
  shutdown_waiting_senders c =
      let (to_one, woken_one) = WaitingQueue.clear c.waiting_send_to_one in
      let (to_all, woken_all) = WaitingQueue.clear c.waiting_send_to_all in
      record c {
        on_shutdown = D.events.notify_all c.on_shutdown;
        unicast_queue = BinaryHeap.empty;
        broadcast_queues = [];
        waiting_send_to_one = to_one;
        waiting_send_to_all = to_all;
        woken = c.woken ++ woken_one ++ woken_all;
      }

  -- `fetch_sub` gives the count before the subtraction.
  unfoldable pub on_receiver_dropped : Chan D → Chan D
  unfolding shutdown_waiting_senders
  on_receiver_dropped c =
      let fewer : Chan D = record c { receiver_count = wrapping_dec c.receiver_count } in
      if c.receiver_count == 1 then shutdown_waiting_senders fewer else fewer

  unfoldable pub on_sender_dropped : Chan D → Chan D
  unfolding shutdown_waiting_receivers
  on_sender_dropped c =
      let fewer : Chan D = record c { sender_count = wrapping_dec c.sender_count } in
      if c.sender_count == 1 then shutdown_waiting_receivers fewer else fewer

  -- The number of the new mailbox, which its creator holds the only `Arc` of.
  unfoldable pub new_broadcast_mailbox : Chan D → ℕ × Chan D
  new_broadcast_mailbox c = (
    c.next_mailbox,
    record c {
      broadcast_queues = c.broadcast_queues ++ c.next_mailbox ∷ [];
      mailboxes =
          update c.mailboxes c.next_mailbox (record { strong = 1; queue = BinaryHeap.empty });
      next_mailbox = suc c.next_mailbox;
    },
  )

  unfoldable pub is_connected : Chan D → Bool
  is_connected c = ltb 0 c.receiver_count && ltb 0 c.sender_count

  -- What `try_send_to_one` does with a message that no receiver took.
  unfoldable pub place_to_one : Option (MessageToOne M) × Chan D → Sent × Chan D
  place_to_one (none, c) = (accepted, c)
  place_to_one (some unfulfilled_msg, c) =
      let (handle, q) = WaitingQueue.push_back c.waiting_send_to_one unfulfilled_msg in
      if is_unicast_full c
      then (mailbox_full handle, record c { waiting_send_to_one = q })
      else (accepted, push_unicast c unfulfilled_msg)

  -- `try_send_to_one` behind the check of the connection: the part under the lock.
  unfoldable pub queue_to_one : Chan D → MessageToOne M → Sent × Chan D
  unfolding place_to_one
  queue_to_one c message = place_to_one (try_fulfill_receiver c message)

  unfoldable pub try_send_to_one : Chan D → MessageToOne M → Result Sent Error × Chan D
  unfolding queue_to_one
  try_send_to_one c message =
      let (sent, c') = queue_to_one c (start_span_to_one message) in
      if is_connected c then (ok sent, c') else (err disconnected, c)

  unfoldable pub queue_to_all : Chan D → MessageToAll M → Sent × Chan D
  queue_to_all c message =
      let (handle, q) = WaitingQueue.push_back c.waiting_send_to_all message in
      if is_broadcast_full c
      then (mailbox_full handle, record c { waiting_send_to_all = q })
      else (accepted, send_broadcast c message)

  unfoldable pub try_send_to_all : Chan D → MessageToAll M → Result Sent Error × Chan D
  unfolding queue_to_all
  try_send_to_all c message =
      let (sent, c') = queue_to_all c (start_span_to_all message) in
      if is_connected c then (ok sent, c') else (err disconnected, c)

  unfoldable pub shared_priority : Chan D → Option Priority
  shared_priority c = Option.map priority (BinaryHeap.peek c.unicast_queue)

  unfoldable pub broadcast_priority : Chan D → ℕ → Option Priority
  broadcast_priority c b = Option.map priority (BinaryHeap.peek (c.mailboxes b).queue)

  -- `unwrap` of a popped message.
  unfoldable pub unwrap_unicast : Option (MessageToOne M) × Chan D → Received M × Chan D
  unwrap_unicast (none, c) = (panicked, c)
  unwrap_unicast (some msg, c) = (received (to_one_actor msg), c)

  unfoldable pub unwrap_broadcast : Option (MessageToAll M) × Chan D → Received M × Chan D
  unwrap_broadcast (none, c) = (panicked, c)
  unwrap_broadcast (some msg, c) = (received (to_all_actors msg), c)

  -- Both mailboxes are empty: wait, or exit if there are no senders.
  unfoldable pub wait_or_exit : Chan D → Received M × Chan D
  wait_or_exit c = if c.sender_count == 0 then (received ActorMessage.shutdown, c) else (
    waiting c.next_slot,
    record c {
      slots = update c.slots c.next_slot oneshot.fresh;
      next_slot = suc c.next_slot;
      waiting_receivers_handles = c.waiting_receivers_handles ++ c.next_slot ∷ [];
    },
  )

  -- The `match` of `try_recv`, by what the comparison gives and whether `shared_priority.is_some()`.
  unfoldable pub choose : Ordering → Bool → Chan D → ℕ → Received M × Chan D
  choose Ordering.gt true c b = unwrap_unicast (pop_unicast c)
  choose Ordering.eq true c b = unwrap_unicast (pop_unicast c)
  choose Ordering.lt some_shared c b = unwrap_broadcast (pop_broadcast c b)
  choose Ordering.gt false c b = wait_or_exit c
  choose Ordering.eq false c b = wait_or_exit c

  unfoldable pub try_recv : Chan D → ℕ → Received M × Chan D
  unfolding shared_priority broadcast_priority choose unwrap_unicast unwrap_broadcast wait_or_exit
  try_recv c b =
      choose (cmp_option (shared_priority c) (broadcast_priority c b)) (is_some (shared_priority c))
        c b

  unfoldable pub len : Chan D → ℕ
  len c = (c.broadcast_tail + BinaryHeap.len c.unicast_queue) % usize_mod

  unfoldable pub capacity : Chan D → Option ℕ
  capacity c = c.capacity

  unfoldable pub shutdown_all_receivers : Chan D → Chan D
  shutdown_all_receivers c = send_broadcast c Envelope.shutdown

  -- The listener is made before the check; it is dropped if there is no connection.
  unfoldable pub disconnect_listener : Chan D → Option ℕ × Chan D
  disconnect_listener c =
      let (listener, event) = D.events.listen c.on_shutdown in
      (if is_connected c then some listener else none, record c { on_shutdown = event })

  unfoldable pub requeue_unfulfilled : Option (MessageToOne M) × Chan D → Chan D
  requeue_unfulfilled (none, c) = c
  requeue_unfulfilled (some msg, c) = push_unicast c msg

  unfoldable pub requeue_message : Chan D → MessageToOne M → Chan D
  unfolding requeue_unfulfilled
  requeue_message c msg = requeue_unfulfilled (try_fulfill_receiver c msg)

  unfoldable pub next_broadcast_message : Chan D → ℕ → Option (MessageToAll M) × Chan D
  next_broadcast_message c b = pop_broadcast c b
