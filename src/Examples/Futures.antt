-- ===== src/Examples/Futures.antt =====
-- The theorems on futures and on `stop_all`, applied to concrete ones.
use mathlib.Core.List.{Mem, mem-cons_self}
use xtra.Chan.Broadcast.{exists}
use xtra.Mailbox.StopEveryone.{ShutsDown, stop_all-try_recv}
use xtra.Prelude.{some, All, retain, suc, ◌<◌, ◌≡◌, refl, ◌⊎◌, true, false, arith, ◌==◌}
use xtra.Priority.{by_priority}
use xtra.BinaryHeap
use xtra.Envelope.{shutdown}
use xtra.Deps.{holding}
use xtra.WaitingReceiver.{new_message, notify_new_message}
use xtra.WaitingQueue.{push_back, empty}
use xtra.WaitingSender
use xtra.Std.{usize_mod}
use xtra.Chan.State.{Chan, to_all_actors}
use xtra.Chan.Inner.{
  send_broadcast, deliver, push_to, try_fulfill_receiver, fulfill, push_unicast, is_unicast_full,
  is_broadcast_full, notify_each,
}
use xtra.Chan.Methods.{
  received, try_recv, shutdown_all_receivers, queue_to_one, queue_to_all, place_to_one,
  new_broadcast_mailbox, on_receiver_created, on_sender_created, new, choose, shared_priority,
  broadcast_priority, wait_or_exit,
}
use xtra.Ptr.{Ptr, tx_strong, rx}
use xtra.Mailbox.{Context, stop_all}
use xtra.Mailbox.StopAll.{try_recv-shutdown, stop_all-send_broadcast}
use xtra.Recv
use xtra.Recv.{drop_waiting}
use xtra.Recv.Cancel.{Requeued, given_up, drop_waiting-Requeued}
use xtra.Send
use xtra.Send.Progress.{Settles, poll-Settles}
use xtra.Examples.{to_busy, deps, message, announcement, busy, idle}

abbrev receiver : Ptr
receiver = record { inner = 0; ref_counter = rx }

abbrev sender : Ptr
sender = record { inner = 0; ref_counter = tx_strong }

-- All are told to stop, with a message and a broadcast before them.
abbrev stopping : Chan deps
stopping = shutdown_all_receivers busy

shutdown_waits : Mem (by_priority shutdown) (BinaryHeap.to_list (stopping.mailboxes 0).queue)
unfolding shutdown_all_receivers send_broadcast deliver push_to queue_to_all queue_to_one
    place_to_one try_fulfill_receiver fulfill push_unicast is_unicast_full is_broadcast_full
    new_broadcast_mailbox on_receiver_created on_sender_created new push_back empty
    WaitingSender.new BinaryHeap.push BinaryHeap.empty BinaryHeap.len BinaryHeap.to_list notify_each
    try_recv choose shared_priority broadcast_priority BinaryHeap.peek wait_or_exit
    notify_new_message
shutdown_waits = mem-cons_self

try_recv-shutdown_example : (try_recv stopping 0).0 ≡ received (to_all_actors shutdown)
try_recv-shutdown_example = try_recv-shutdown stopping 0 shutdown_waits

abbrev context : Context
context = record { running = true; mailbox = record { inner = receiver; broadcast_mailbox = 0 } }

few_senders : suc busy.sender_count < usize_mod
unfolding shutdown_all_receivers send_broadcast deliver push_to queue_to_all queue_to_one
    place_to_one try_fulfill_receiver fulfill push_unicast is_unicast_full is_broadcast_full
    new_broadcast_mailbox on_receiver_created on_sender_created new push_back empty
    WaitingSender.new BinaryHeap.push BinaryHeap.empty BinaryHeap.len BinaryHeap.to_list notify_each
    try_recv choose shared_priority broadcast_priority BinaryHeap.peek wait_or_exit
    notify_new_message
few_senders = omega arith

sender_left : (busy.sender_count == 0) ≡ false
unfolding shutdown_all_receivers send_broadcast deliver push_to queue_to_all queue_to_one
    place_to_one try_fulfill_receiver fulfill push_unicast is_unicast_full is_broadcast_full
    new_broadcast_mailbox on_receiver_created on_sender_created new push_back empty
    WaitingSender.new BinaryHeap.push BinaryHeap.empty BinaryHeap.len BinaryHeap.to_list notify_each
    try_recv choose shared_priority broadcast_priority BinaryHeap.peek wait_or_exit
    notify_new_message
sender_left = refl

stop_all-try_recv_example :
    All
      (ShutsDown (stop_all context busy))
      (retain (λ q. exists (busy.mailboxes q)) busy.broadcast_queues)
stop_all-try_recv_example =
    stop_all-try_recv deps (some 1) context to_busy (omega arith) few_senders sender_left

stop_all-send_broadcast_example :
    ((busy.sender_count ≡ 0) × (stop_all context busy ≡ busy))
    ⊎ (((busy.sender_count == 0) ≡ false) × (stop_all context busy ≡ send_broadcast busy shutdown))
stop_all-send_broadcast_example = stop_all-send_broadcast context busy few_senders

-- The idle receiver has been handed a message.
abbrev handed : Chan deps
handed = (queue_to_one idle (message 7 0)).1

handed_message : deps.oneshot.look (handed.slots 0) ≡ holding (new_message (message 7 0))
unfolding shutdown_all_receivers send_broadcast deliver push_to queue_to_all queue_to_one
    place_to_one try_fulfill_receiver fulfill push_unicast is_unicast_full is_broadcast_full
    new_broadcast_mailbox on_receiver_created on_sender_created new push_back empty
    WaitingSender.new BinaryHeap.push BinaryHeap.empty BinaryHeap.len BinaryHeap.to_list notify_each
    try_recv choose shared_priority broadcast_priority BinaryHeap.peek wait_or_exit
    notify_new_message
handed_message = refl

drop_waiting-Requeued_example : Requeued (given_up handed 0) (message 7 0) (drop_waiting 0 handed)
drop_waiting-Requeued_example = drop_waiting-Requeued handed 0 (message 7 0) handed_message

poll-Settles_example :
    Settles deps
      (λ c. c.waiting_send_to_one)
      4
      (Send.poll_to_one (Send.new (message 7 0) sender) 4 busy)
    × Settles deps
        (λ c. c.waiting_send_to_all)
        4
        (Send.poll_to_all (Send.new (announcement 9 0) sender) 4 busy)
poll-Settles_example =
    poll-Settles (Send.new (message 7 0) sender) (Send.new (announcement 9 0) sender) 4 busy refl
      refl
