-- ===== src/Chan/NoRoom/Parked.antt =====
-- A sender that waits at a channel of xtra/src/chan.rs with the capacity 0.
use mathlib.Core.List.Perm
use mathlib.Core.List.{Perm}
use xtra.Prelude.{ℕ, ◌<◌, ◌≡◌, false, some, ◌==◌, List}
use xtra.Envelope.{MessageToOne}
use xtra.WaitingSender
use xtra.WaitingSender.{take_message}
use xtra.WaitingQueue
use xtra.WaitingQueue.{WaitingQueue}
use xtra.Chan.State.{Deps, Chan}
use xtra.BinaryHeap
use xtra.Chan.Steps.{Step, receiver_dropped, drops_to_one}

module _ {M : Type 0} {D : Deps M} (h : ℕ) where
  -- Any step but that the last receiver is dropped, or the sender `h`.
  unfoldable pub Stays : {c d : Chan D} → Step c d → Type 0
  Stays {c} receiver_dropped = (c.receiver_count == 1) ≡ false
  Stays (drops_to_one i) = (i == h) ≡ false
  Stays _ = Unit

  -- Such steps, one after another.
  pub data StaySteps (c : Chan D) : Chan D → Type 0 where
    here : StaySteps c c
    next : {d e : Chan D} → StaySteps c d → (s : Step d e) → Stays s → StaySteps c e

module _ {M : Type 0} {D : Deps M} (h : ℕ) (m : MessageToOne M) where
  -- In a channel without room, the sender `h` waits with its message `m`.
  pub record IsParked (c : Chan D) : Type 0 where
    pub no_room : c.capacity ≡ some 0
    pub known : h < c.waiting_send_to_one.next_cell
    pub waits : (take_message (c.waiting_send_to_one.cells h)).0 ≡ some m
