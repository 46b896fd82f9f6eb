-- ===== src/Examples/NoRoom.antt =====
-- A message is sent over a channel with the capacity 0, and then a receiver asks for one.
use xtra.Prelude.{some}
use xtra.BinaryHeap
use xtra.WaitingQueue
use xtra.Chan.State.{Chan}
use xtra.Chan.Methods.{
  new, on_sender_created, on_receiver_created, new_broadcast_mailbox, queue_to_one,
}
use xtra.Examples.{deps, message}

abbrev cramped : Chan deps
cramped = (new_broadcast_mailbox (on_receiver_created (on_sender_created (new deps (some 0))))).1

abbrev sent : Chan deps
sent = (queue_to_one cramped (message 7 0)).1

-- Then another address is made.
abbrev later : Chan deps
later = on_sender_created sent
