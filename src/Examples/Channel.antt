-- ===== src/Examples/Channel.antt =====
-- The theorems on the channel and its queues, applied to concrete states.
use xtra.Prelude.{
  length, ◌<◌, ℕ, ◌+◌, ◌≡◌, refl, ◌⊎◌, true, false, none, some, [], ◌∷◌, arith, All, retain, ◌==◌,
}
use xtra.Std.{ready, pending, ok, err, wrapping_dec}
use xtra.Error.{disconnected}
use xtra.Deps.{after_send}
use xtra.Envelope.{MessageToOne, to_one_has_priority, start_span_to_one}
use xtra.WaitingReceiver.{new_broadcast}
use xtra.WaitingSender
use xtra.WaitingSender.{Cell, is_active, take_message, drop_handle}
use xtra.WaitingSender.Laws.{Touches, taken, handle_decides, poll_woken, leaves, polls}
use xtra.WaitingQueue.{WaitingQueue, empty, push_back, clear, try_take_waiting_message}
use xtra.WaitingQueue.Select.{active_handles}
use xtra.WaitingQueue.Take.{Takes, try_take_waiting_message-Takes}
use xtra.WaitingQueue.Invariant.{IsWellFormed, empty-IsWellFormed, push_back-IsWellFormed}
use xtra.WaitingQueue.Close.{IsClosed, clear-IsClosed}
use xtra.WaitingQueue.Dropped.{drop_sender-Takes}
use xtra.WaitingQueue.{take_loop, drop_sender}
use xtra.WaitingQueue.Take.{take_loop-enough}
use xtra.Chan.State.{Chan}
use xtra.Chan.Inner.{send_broadcast}
use xtra.Chan.Broadcast.{exists, Reaches}
use xtra.Chan.Methods.{
  new, Sent, try_recv, try_send_to_one, is_connected, on_sender_dropped, on_receiver_dropped,
}
use xtra.Chan.Receive.{Gives, try_recv-Gives}
use xtra.Chan.Fulfill.{Placed, try_send_to_one-Placed}
use xtra.Chan.Backpressure.{IsBackpressured, new-IsBackpressured}
use xtra.Chan.Tail.{IsTracked}
use xtra.Chan.Bounds.{Steps-new-IsTracked, send_broadcast-Reaches}
use xtra.Chan.Shutdown.{IsAbandoned, IsOrphaned, on_sender_dropped-IsOrphaned}
use xtra.Chan.Senders.{IsOrderly, Steps-new-IsOrderly, last_receiver-IsAbandoned}
use xtra.Chan.Steps.{Steps, next, receives, receiver_dropped}
use xtra.Chan.Held.{held}
use xtra.Chan.Conserved.{total_entered, total_handed_out, total_lost, total_entered-held}
use xtra.Examples.{deps, message, announcement, busy, to_busy, idle, to_idle}

try_recv-Gives_example : Gives busy 0 (try_recv busy 0)
try_recv-Gives_example = try_recv-Gives busy 0

try_send_to_one-Placed_example :
    ((is_connected idle ≡ false) × (try_send_to_one idle (message 5 0) ≡ (err disconnected, idle)))
    ⊎ ((s : Sent) × (d : Chan deps) × (is_connected idle ≡ true)
        × Placed idle (start_span_to_one (message 5 0)) (s, d)
        × (try_send_to_one idle (message 5 0) ≡ (ok s, d)))
try_send_to_one-Placed_example = try_send_to_one-Placed idle (message 5 0)

new-IsBackpressured_example : IsBackpressured busy
new-IsBackpressured_example = new-IsBackpressured deps (some 1) to_busy

Steps-new-IsTracked_example : IsTracked 6 busy
Steps-new-IsTracked_example = Steps-new-IsTracked deps (some 1) to_busy (omega arith)

send_broadcast-Reaches_example :
    All
      (λ q.
        Reaches
          (announcement 3 0)
          (idle.mailboxes q)
          ((send_broadcast idle (announcement 3 0)).mailboxes q))
      idle.broadcast_queues
    × ((send_broadcast idle (announcement 3 0)).broadcast_queues
        ≡ retain (λ q. exists (idle.mailboxes q)) idle.broadcast_queues)
    × All
        (λ rx.
          deps.oneshot.look ((send_broadcast idle (announcement 3 0)).slots rx)
          ≡ after_send (deps.oneshot.look (idle.slots rx)) new_broadcast)
        idle.waiting_receivers_handles
    × ((send_broadcast idle (announcement 3 0)).waiting_receivers_handles ≡ [])
send_broadcast-Reaches_example =
    send_broadcast-Reaches deps (some 1) to_idle (omega arith) (announcement 3 0)

last_receiver-IsAbandoned_example :
    ((busy.receiver_count ≡ 1) × IsAbandoned busy (on_receiver_dropped busy))
    ⊎ (((busy.receiver_count == 1) ≡ false)
        × (on_receiver_dropped busy
            ≡ record busy { receiver_count = wrapping_dec busy.receiver_count }))
last_receiver-IsAbandoned_example = last_receiver-IsAbandoned deps (some 1) to_busy

on_sender_dropped-IsOrphaned_example :
    ((idle.sender_count ≡ 1) × IsOrphaned idle (on_sender_dropped idle))
    ⊎ (((idle.sender_count == 1) ≡ false)
        × (on_sender_dropped idle ≡ record idle { sender_count = wrapping_dec idle.sender_count }))
on_sender_dropped-IsOrphaned_example = on_sender_dropped-IsOrphaned idle

Steps-new-IsOrderly_example : IsOrderly busy
Steps-new-IsOrderly_example = Steps-new-IsOrderly deps (some 1) to_busy

-- Three messages that wait, the last of which is the most urgent.
abbrev full_line : WaitingQueue (MessageToOne ℕ)
full_line =
    (push_back (push_back (push_back empty (message 1 0)).1 (message 2 5)).1 (message 3 9)).1

full_line-IsWellFormed : IsWellFormed full_line
full_line-IsWellFormed = push_back-IsWellFormed _ (message 3 9) (
    push_back-IsWellFormed _ (message 2 5)
      (push_back-IsWellFormed empty (message 1 0) empty-IsWellFormed))

four : length full_line.handles < 4
unfolding push_back empty
four = omega arith

nine : length full_line.handles < 9
unfolding push_back empty
nine = omega arith

try_take_waiting_message-Takes_example :
    ((active_handles full_line ≡ [])
      × (try_take_waiting_message full_line ≡ (none, record full_line { handles = [] }, [])))
    ⊎ ((m : MessageToOne ℕ) × Takes full_line m)
try_take_waiting_message-Takes_example =
    try_take_waiting_message-Takes full_line full_line-IsWellFormed.offers

take_loop-enough_example : take_loop 4 full_line ≡ take_loop 9 full_line
take_loop-enough_example = take_loop-enough 4 9 full_line four nine

drop_sender-Takes_example :
    ((try_take_waiting_message (drop_sender full_line 2)).0 ≡ none)
    ⊎ ((m : MessageToOne ℕ) × (t : Takes (drop_sender full_line 2) m) × ((t.handle == 2) ≡ false))
drop_sender-Takes_example = drop_sender-Takes full_line 2 full_line-IsWellFormed

clear-IsClosed_example :
    ((clear full_line).0.handles ≡ [])
    × All (λ h. IsClosed ((clear full_line).0.cells h)) full_line.handles
clear-IsClosed_example = clear-IsClosed full_line full_line-IsWellFormed

-- A sender whose task has polled it.
abbrev polled : Cell (MessageToOne ℕ)
polled = (WaitingSender.poll (WaitingSender.new (message 1 0)) 4).1

polled_message : (take_message polled).0 ≡ some (message 1 0)
unfolding take_message WaitingSender.new WaitingSender.poll
polled_message = refl

new_pending : (WaitingSender.poll (WaitingSender.new (message 1 0)) 4).0 ≡ pending
unfolding WaitingSender.new WaitingSender.poll
new_pending = refl

new_active : is_active (WaitingSender.new (message 1 0)) ≡ true
unfolding WaitingSender.new is_active
new_active = refl

handle_decides_example :
    ((WaitingSender.poll (WaitingSender.drop_sender (taken polled)) 6).0 ≡ ready (ok tt))
    × ((WaitingSender.poll (WaitingSender.poll (drop_handle polled).0 5).1 6).0
        ≡ ready (err disconnected))
handle_decides_example =
    handle_decides polled (message 1 0) 6 polled_message (Touches.next Touches.here leaves)
      (Touches.next Touches.here (polls 5))

poll_woken_example :
    ((take_message (WaitingSender.poll (WaitingSender.new (message 1 0)) 4).1).2 ≡ 4 ∷ [])
    × ((drop_handle (WaitingSender.poll (WaitingSender.new (message 1 0)) 4).1).1 ≡ 4 ∷ [])
poll_woken_example = poll_woken (WaitingSender.new (message 1 0)) 4 new_pending new_active

-- The receiver takes the message that does not wait, and leaves.
abbrev to_left : Steps (new deps (some 1)) (on_receiver_dropped (try_recv busy 0).1)
to_left = next (next to_busy (receives 0)) receiver_dropped

abbrev by_content : MessageToOne ℕ → ℕ
by_content m = m.message

total_entered-held_example :
    held by_content (on_receiver_dropped (try_recv busy 0).1)
      + total_handed_out by_content to_left
      + total_lost by_content to_left
    ≡ total_entered by_content to_left
total_entered-held_example = total_entered-held by_content deps (some 1) to_left
