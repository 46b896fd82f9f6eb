-- ===== src/Examples/Late.antt =====
-- A message comes after the only receiver has left.
use xtra.Prelude.{◌≡◌, refl, false}
use xtra.Chan.State.{Chan}
use xtra.Chan.Inner.{reached}
use xtra.Chan.Methods.{
  new, accepted, on_sender_created, on_receiver_created, on_receiver_dropped, new_broadcast_mailbox,
  queue_to_one, is_connected,
}
use xtra.Chan.Steps.{sender_created}
use xtra.Chan.Late.{IsLeft, NoReceiver, NoReceiverSteps, here, next}
use xtra.Chan.Late.Unread.{NobodyOpen, queue_to_one-IsLeft}
use xtra.Examples.{deps, message, connected}

abbrev late : Chan deps
late = (queue_to_one (on_receiver_dropped connected) (message 7 0)).1

one_receiver : connected.receiver_count ≡ 1
unfolding new_broadcast_mailbox on_receiver_created on_sender_created new
one_receiver = refl

has_room : reached connected.capacity 0 ≡ false
unfolding new_broadcast_mailbox on_receiver_created on_sender_created new
has_room = refl

nobody : NobodyOpen connected
unfolding new_broadcast_mailbox on_receiver_created on_sender_created new
nobody = tt

to_shared : NoReceiverSteps late (on_sender_created late)
unfolding NoReceiver
to_shared = next here sender_created tt

queue_to_one-IsLeft_example :
    ((queue_to_one (on_receiver_dropped connected) (message 7 0)).0 ≡ accepted)
    × (is_connected (on_sender_created late) ≡ false)
    × IsLeft (message 7 0) (on_sender_created late)
queue_to_one-IsLeft_example =
    queue_to_one-IsLeft connected (message 7 0) one_receiver has_room nobody to_shared
