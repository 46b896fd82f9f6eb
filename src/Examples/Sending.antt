-- ===== src/Examples/Sending.antt =====
-- The theorems on message channels and on the answers of sent messages, applied to concrete ones.
use xtra.Prelude.{ℕ, suc, ◌<◌, ◌≤◌, ◌≡◌, ◌≢◌, refl, true, false, Option, some, arith, ◌+◌}
use xtra.Std.{ready, err, usize_mod}
use xtra.Error.{disconnected}
use xtra.Deps.{holding}
use xtra.Chan.State.{Chan}
use xtra.Chan.Methods.{
  is_connected, on_receiver_dropped, shutdown_waiting_senders, new_broadcast_mailbox,
  on_receiver_created, on_sender_created, new,
}
use xtra.Ptr
use xtra.Ptr.{rx, tx_strong, tx_either}
use xtra.Address.{Address}
use xtra.Send
use xtra.Send.{done, polled, poll_return, poll_broadcast, poll_detached, detach, sending_named}
use xtra.Envelope.{MessageToOne}
use xtra.Send.{SendFuture}
use xtra.Send.Fate.{FromAddress}
use xtra.Send.Answers.{Answers, poll_return-Answers, Delivers, poll_detached-Delivers}
use xtra.MessageChannel
use xtra.MessageChannel.{MessageChannel, strong, either, downgrade_strong, downgrade_either}
use xtra.MessageChannel.Laws.{IsCopy, IsWeakened, IsTyped, copies_agree}
use xtra.MessageChannel.Refused.{send-disconnected}
use xtra.Examples.{plain_oneshot, deps, message, connected, busy}

abbrev address : Address
address = record { ptr = record { inner = 0; ref_counter = tx_strong } }

abbrev channel : MessageChannel strong
channel = record { inner = record { address = address } }

sends : tx_strong ≢ rx
sends e = cc

-- The channel after its only receiver is gone.
abbrev abandoned : Chan deps
abandoned = on_receiver_dropped connected

counted : (1 ≤ connected.sender_count) × (suc connected.sender_count < usize_mod)
unfolding new_broadcast_mailbox on_receiver_created on_sender_created new
counted = (omega arith, omega arith)

still_counted : (1 ≤ abandoned.sender_count) × (suc abandoned.sender_count < usize_mod)
unfolding on_receiver_dropped shutdown_waiting_senders new_broadcast_mailbox on_receiver_created
    on_sender_created new
still_counted = (omega arith, omega arith)

no_connection : is_connected abandoned ≡ false
unfolding is_connected on_receiver_dropped shutdown_waiting_senders new_broadcast_mailbox
    on_receiver_created on_sender_created new
no_connection = refl

abbrev either_channel : MessageChannel either
either_channel = record {
  inner = record {
    address = record { ptr = record { inner = 0; ref_counter = tx_either Ptr.weak } };
  };
}

typed : IsTyped channel
unfolding IsTyped
typed = refl

copies_agree_example :
    (MessageChannel.eq channel (MessageChannel.clone channel connected).0 ≡ true)
    × IsCopy channel connected
        (MessageChannel.clone channel connected).0
        (MessageChannel.clone channel connected).1
    × ((n : MessageChannel either) × ((MessageChannel.as_either channel connected).0 ≡ some n)
        × IsCopy channel connected n (MessageChannel.as_either channel connected).1)
    × IsWeakened channel connected (downgrade_strong channel)
    × IsWeakened either_channel connected (downgrade_either either_channel)
copies_agree_example =
    copies_agree channel channel either_channel connected typed counted.0 counted.1

-- The messages of one kind are those of the actor after the number 100.
abbrev above : ℕ → ℕ
above n = n + 100

send-disconnected_example :
    (poll_return
        (plain_oneshot ℕ)
        (Send.send address 105 2 abandoned).0.sending
        (holding 6)
        4
        (Send.send address 105 2 abandoned).1
      ≡ (polled (ready (err disconnected)), holding 6, done, abandoned))
    × (poll_broadcast
          (Send.broadcast address 105 abandoned).0.sending
          4
          (Send.broadcast address 105 abandoned).1
        ≡ (polled (ready (err disconnected)), done, abandoned))
    × (poll_return
          (plain_oneshot ℕ)
          (MessageChannel.send above
            (MessageChannel.new {rc = strong} address)
            5
            2
            abandoned).0.sending
          (holding 6)
          4
          (MessageChannel.send above (MessageChannel.new {rc = strong} address) 5 2 abandoned).1
        ≡ (polled (ready (err disconnected)), holding 6, done, abandoned))
send-disconnected_example =
    send-disconnected (plain_oneshot ℕ) above strong address abandoned 5 2 (holding 6) 4 sends
      still_counted.0 still_counted.1 no_connection

poll_return-Answers_example :
    Answers deps
      (plain_oneshot ℕ)
      (Send.new (message 7 0) address.ptr)
      (holding 6)
      4
      connected
      (poll_return (plain_oneshot ℕ) (Send.new (message 7 0) address.ptr) (holding 6) 4 connected)
poll_return-Answers_example =
    poll_return-Answers (plain_oneshot ℕ) (Send.new (message 7 0) address.ptr) (holding 6) 4
      connected sends

abbrev detached : SendFuture (MessageToOne ℕ) (Option ℕ)
detached = detach (sending_named 7 address.ptr 2)

keeps_receiver : detached.state ≡ some 2
unfolding detach sending_named
keeps_receiver = refl

from_address : FromAddress detached.sending
unfolding detach sending_named
from_address = sends

poll_detached-Delivers_example :
    Delivers deps detached.sending 2 4 busy (poll_detached detached 4 busy)
poll_detached-Delivers_example =
    poll_detached-Delivers detached 2 4 busy keeps_receiver from_address
