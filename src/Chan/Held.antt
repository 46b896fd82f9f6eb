-- ===== src/Chan/Held.antt =====
-- The messages for one actor that a channel of xtra/src/chan.rs holds: in its mailbox, with the senders
-- that wait, and with the receivers that were handed one and have not taken it. They are counted by a
-- weight, which may tell some messages from others.
pub mod Slots
pub mod Senders
pub mod Popping
use xtra.Prelude.{ℕ, ◌+◌, Option, none, some, sum_of, sum_below}
use xtra.Priority.{ByPriority}
use xtra.BinaryHeap
use xtra.BinaryHeap.{BinaryHeap}
use xtra.Deps.{Look, open_look, holding, closed, hung_up}
use xtra.Envelope.{MessageToOne}
use xtra.WaitingSender.{Cell, take_message}
use xtra.WaitingReceiver.{CtrlMsg, new_message, new_broadcast, shutdown}
use xtra.WaitingQueue.{WaitingQueue}
use xtra.Chan.State.{Deps, Chan}

module _ {M : Type 0} (w : MessageToOne M → ℕ) where
  abbrev pub weigh : Option (MessageToOne M) → ℕ
  weigh none = 0
  weigh (some m) = w m

  -- In the cell of a waiting sender: what could be taken.
  abbrev pub in_cell : Cell (MessageToOne M) → ℕ
  in_cell c = weigh (take_message c).0

  abbrev pub in_ctrl : CtrlMsg M → ℕ
  in_ctrl (new_message m) = w m
  in_ctrl new_broadcast = 0
  in_ctrl shutdown = 0

  -- In the one-shot channel of a waiting receiver.
  abbrev pub in_look : Look (CtrlMsg M) → ℕ
  in_look open_look = 0
  in_look (holding t) = in_ctrl t
  in_look closed = 0
  in_look hung_up = 0

  abbrev pub in_heap : BinaryHeap (ByPriority (MessageToOne M)) → ℕ
  in_heap h = sum_of (λ x. w x.content) (BinaryHeap.to_list h)

  -- With all the senders that there have been.
  abbrev pub in_queue : WaitingQueue (MessageToOne M) → ℕ
  in_queue q = sum_below q.next_cell (λ h. in_cell (q.cells h))

  module _ {D : Deps M} where
    -- With all the receivers that have waited.
    abbrev pub in_slots : Chan D → ℕ
    in_slots c = sum_below c.next_slot (λ rx. in_look (D.oneshot.look (c.slots rx)))

    abbrev pub held : Chan D → ℕ
    held c = in_heap c.unicast_queue + in_queue c.waiting_send_to_one + in_slots c
