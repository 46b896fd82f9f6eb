-- ===== src/Lib.antt =====
-- The actor library xtra (xtra/src): the channel between addresses and mailboxes, the pointers that
-- count who uses it, and the futures by which messages are sent and received.
--
-- An address (xtra/src/address.rs) and a mailbox (xtra/src/mailbox.rs) are pointers to a channel
-- (xtra/src/chan.rs). A channel has a mailbox of messages for one actor, a list of broadcast mailboxes,
-- one for each receiver, and lines of waiting senders and receivers. A message that finds a waiting
-- receiver is handed over; else it is put in the mailbox; else, in a bounded channel that is full, it
-- stays with its sender until a receiver makes room.
--
-- Files and code:
--   Std, Error, BinaryHeap: what is used of the standard library; `Error` of xtra/src/lib.rs
--   Priority: xtra/src/chan/priority.rs; Priority/Order: the order of priorities
--   Instrumentation, Envelope: xtra/src/instrumentation/stub.rs, xtra/src/envelope.rs
--   Deps: the crates `catty` and `event-listener` as parameters, with what they document as laws
--   WaitingSender, WaitingQueue: xtra/src/chan/waiting_sender.rs, and the queues of its handles in
--     xtra/src/chan.rs with `find_remove_highest_priority` and the two `try_take_waiting_*_message`
--   WaitingReceiver: xtra/src/chan/waiting_receiver.rs
--   Chan: xtra/src/chan.rs. Chan/State has the state, Chan/Inner the functions of `impl Inner`,
--     Chan/Methods those of `impl Chan`, under the names of the source, Chan/Steps the relation of all
--     steps; the other modules below Chan have the theorems
--   Ptr: xtra/src/chan/ptr.rs; Ptr/Counted has the relation of all pointer steps
--   Address, Mailbox: xtra/src/address.rs and scoped_task.rs; xtra/src/mailbox.rs and context.rs
--   Send, Recv: xtra/src/send_future.rs, xtra/src/recv_future.rs
--   Dispatch: xtra/src/dispatch_future.rs and the `handle` methods of xtra/src/envelope.rs
--   Run: `run` and `yield_once` of xtra/src/lib.rs, over the list of messages that a mailbox gives;
--     Run/Task: the same as rounds of polls on a channel
--   Select: `select` and `join` of xtra/src/lib.rs, in rounds
--   MessageChannel: xtra/src/message_channel.rs; MessageChannel/Object has the trait that it calls
--   Examples: concrete parameters and states, and the theorems applied to them
--
-- The state of a channel is one record, which each operation takes and gives back. An operation that
-- locks the mutex is one step, and so is each round in the loop of the receiving future, between which
-- others may act (Recv/Loop); within a round of Run/Task and Select, and when a message is sent, a poll
-- is one step of its task, as on an executor of one thread. Objects shared by `Arc` stand
-- under numbers in stores: the cells of waiting senders, the one-shot channels of waiting receivers, the
-- broadcast mailboxes. Wakers are the numbers of tasks; an operation notes which it wakes. `usize` has
-- 64 bits, and where a count wraps around, this is written out. What a user's code does when a message is
-- dropped or a task is woken, both of which can happen under the mutex, is not part of a step, so the
-- mutex is neither poisoned nor locked twice.
--
-- The loop that takes the next waiting sender is on fuel, one more than there are handles: each round
-- takes a handle off the queue. The loop of the receiving future is on fuel as well: three rounds are
-- enough (a notification that turns out false, a new attempt, and the wait after it) unless others, while
-- it runs, notify a waiting receiver of a broadcast and take it. The loop that upgrades a weak
-- address is modelled with the rounds that others leave it, and may go on as long as they interfere.
--
-- Not modelled: the order among messages of one priority in a mailbox, which `BinaryHeap` leaves open
-- (the theorems use its laws only); Debug output; the derive macro; sinks,
-- tracing and spawning, which are behind features.
-- An actor's code is a parameter, and so are the future that `select` and `join` run beside it and the
-- order in which the crate `futures-util` polls the two.
pub mod Prelude
pub mod Std
pub mod Error
pub mod Priority
pub mod BinaryHeap
pub mod Instrumentation
pub mod Envelope
pub mod Deps
pub mod WaitingSender
pub mod WaitingQueue
pub mod WaitingReceiver
pub mod Chan
pub mod Ptr
pub mod Address
pub mod Mailbox
pub mod Send
pub mod Recv
pub mod Dispatch
pub mod Run
pub mod Select
pub mod MessageChannel
pub mod Examples
