-- ===== src/Recv/Keeps.antt =====
-- The mailbox with which the future of xtra/src/recv_future.rs was made goes with the message.
use xtra.Prelude.{ℕ, zero, suc, ◌≡◌, Option, none, some}
use xtra.Std.{Poll, ready, pending, Waker}
use xtra.Chan.State.{Deps, Chan, ActorMessage}
use xtra.Chan.Methods.{Received, received, try_recv}
use xtra.Ptr.{Ptr}
use xtra.Mailbox.{Mailbox, from_parts}
use xtra.Recv.{
  Receiving, new_round, waiting_round, waiting_arm, poll_waiting, round, continue_with, poll_loop,
  poll_waiting_receiver, given,
}
use xtra.Recv

-- A future of the next message of this mailbox.
abbrev pub IsOf : Mailbox → Receiving → Type 0
IsOf mailbox (Recv.new p b) = from_parts p b ≡ mailbox
IsOf mailbox (Recv.waiting p b rx) = from_parts p b ≡ mailbox
IsOf mailbox Recv.done = Unit

module _ {M : Type 0} (D : Deps M) (mailbox : Mailbox) where
  -- A message that is given has the mailbox with it, and a future that waits keeps it.
  abbrev pub Keeps : Recv.Outcome D → Type 0
  Keeps (Recv.polled (ready m), s, c) = from_parts m.channel m.broadcast_mailbox ≡ mailbox
  Keeps (Recv.polled pending, s, c) = IsOf mailbox s
  Keeps (Recv.panicked, s, c) = Unit
  Keeps (Recv.looping, s, c) = Unit

  abbrev AllKeep : ℕ → Waker → Type 0
  AllKeep fuel cx =
      (s : Receiving) (c : Chan D)
      → IsOf mailbox s
      → Keeps (poll_loop {D = D} (λ n d. d) fuel s cx c)

  new_round-Keeps :
      (fuel : ℕ) (cx : Waker) (p : Ptr) (b : ℕ) (r : Received M × Chan D)
      → AllKeep fuel cx
      → from_parts p b ≡ mailbox
      → Keeps (continue_with (λ t d. poll_loop (λ n x. x) fuel t cx d) (new_round p b r))
  unfolding continue_with new_round given
  new_round-Keeps fuel cx p b (received m, c) rest k = k
  new_round-Keeps fuel cx p b (Received.waiting rx, c) rest k = rest (Recv.waiting p b rx) c k
  new_round-Keeps fuel cx p b (Received.panicked, c) rest k = tt

  waiting_round-Keeps :
      (fuel : ℕ) (cx : Waker) (p : Ptr) (b rx : ℕ) (r : Poll (Option (ActorMessage M)) × Chan D)
      → AllKeep fuel cx
      → from_parts p b ≡ mailbox
      → Keeps (continue_with (λ t d. poll_loop (λ n x. x) fuel t cx d) (waiting_round p b rx r))
  unfolding continue_with waiting_round waiting_arm poll_waiting given
  waiting_round-Keeps fuel cx p b rx (ready (some m), c) rest k = k
  waiting_round-Keeps fuel cx p b rx (ready none, c) rest k = rest (Recv.new p b) c k
  waiting_round-Keeps fuel cx p b rx (pending, c) rest k = k

  poll_loop-Keeps : (fuel : ℕ) (cx : Waker) → AllKeep fuel cx
  unfolding poll_loop round continue_with
  poll_loop-Keeps zero cx s c k = tt
  poll_loop-Keeps (suc fuel) cx (Recv.new p b) c k =
      new_round-Keeps fuel cx p b (try_recv c b) (poll_loop-Keeps fuel cx) k
  poll_loop-Keeps (suc fuel) cx (Recv.waiting p b rx) c k =
      waiting_round-Keeps fuel cx p b rx (poll_waiting_receiver rx b cx c) (poll_loop-Keeps fuel cx)
        k
  poll_loop-Keeps (suc fuel) cx Recv.done c k = tt

  pub poll-Keeps :
      (cx : Waker) → (s : Receiving) (c : Chan D) → IsOf mailbox s → Keeps (Recv.poll_alone s cx c)
  unfolding Recv.poll_alone
  poll-Keeps cx s c k = poll_loop-Keeps 3 cx s c k
