-- ===== src/Examples/Lagging.antt =====
-- A broadcast mailbox that lags behind is dropped.
use xtra.Prelude.{◌≡◌, refl, ◌⊎◌, inl, inr, true, All, ◌==◌}
use xtra.BinaryHeap
use xtra.Chan.State.{Chan}
use xtra.Chan.Inner.{
  send_broadcast, deliver, push_to, is_broadcast_full, notify_each, pop_broadcast, refill_broadcast,
  popped_broadcast, longest_broadcast_queue, longest,
}
use xtra.Chan.Methods.{
  mailbox_full, queue_to_all, new_broadcast_mailbox, on_receiver_created, on_sender_created, new,
  next_broadcast_message,
}
use xtra.Chan.Steps.{drop_mailbox}
use xtra.Chan.Stuck.{IsDrained}
use xtra.Chan.Stuck.Always.{Ordinary, drop_mailbox-waits}
use xtra.Examples.{deps, announcement, connected}

-- A broadcast has reached two mailboxes, and the first one's owner has taken it.
abbrev lagging : Chan deps
lagging =
    (next_broadcast_message
      (queue_to_all (new_broadcast_mailbox (on_receiver_created connected)).1 (announcement 9 0)).1
      0).1

abbrev later : Chan deps
later = (drop_mailbox lagging 1)

is_full : is_broadcast_full lagging ≡ true
unfolding is_broadcast_full next_broadcast_message pop_broadcast queue_to_all send_broadcast deliver
    push_to new_broadcast_mailbox on_receiver_created on_sender_created new notify_each
    refill_broadcast popped_broadcast longest_broadcast_queue longest BinaryHeap.push BinaryHeap.pop
    BinaryHeap.len BinaryHeap.empty
is_full = refl

last_one : (lagging.mailboxes 1).strong ≡ 1
unfolding is_broadcast_full next_broadcast_message pop_broadcast queue_to_all send_broadcast deliver
    push_to new_broadcast_mailbox on_receiver_created on_sender_created new notify_each
    refill_broadcast popped_broadcast longest_broadcast_queue longest BinaryHeap.push BinaryHeap.pop
    BinaryHeap.len BinaryHeap.empty
last_one = refl

others-IsDrained :
    All (λ q. ((1 == q) ≡ true) ⊎ IsDrained (lagging.mailboxes q)) lagging.broadcast_queues
unfolding is_broadcast_full next_broadcast_message pop_broadcast queue_to_all send_broadcast deliver
    push_to new_broadcast_mailbox on_receiver_created on_sender_created new notify_each
    refill_broadcast popped_broadcast longest_broadcast_queue longest BinaryHeap.push BinaryHeap.pop
    BinaryHeap.len BinaryHeap.empty BinaryHeap.to_list
others-IsDrained = (inr (λ e. refl), (inl refl, tt))

drop_mailbox-waits_example :
    All (λ q. IsDrained (later.mailboxes q)) later.broadcast_queues
    × ((queue_to_all later (announcement 4 0)).0 ≡ mailbox_full later.waiting_send_to_all.next_cell)
drop_mailbox-waits_example =
    drop_mailbox-waits lagging 1 (announcement 4 0) is_full last_one others-IsDrained Ordinary.here
