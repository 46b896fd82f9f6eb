-- ===== src/Recv/Loop.antt =====
-- The loop of `Receiving::poll` in xtra/src/recv_future.rs ends.
use xtra.Prelude.{ℕ, suc, ◌≡◌, ◌≢◌, refl, Option, none, some, ==_iff}
use xtra.Std.{Poll, ready, pending, Waker}
use xtra.Deps.{open_look}
use xtra.Chan.State.{Deps, Chan, ActorMessage}
use xtra.Chan.Methods.{Received, try_recv}
use xtra.Chan.Receive.{
  Gives, gives_unicast, gives_broadcast, gives_shutdown, gives_wait, try_recv-Gives,
}
use xtra.Ptr.{Ptr}
use xtra.Recv.{
  Receiving, new, waiting, done, Message, polled, Outcome, new_round, waiting_round, waiting_arm,
  poll_waiting, round, continue_with, poll_loop, poll_alone, panicked, Round, returns, again,
  poll_waiting_receiver, woken_with, given,
}

-- A poll that gives no panic and does not run out of rounds: a message, after which the future is done,
-- or nothing yet, after which it waits for a notification.
pub data Finishes {M : Type 0} (D : Deps M) (r : Outcome D) : Type 0 where
  gives : (m : Message M) → r.0 ≡ polled (ready m) → r.1 ≡ done → Finishes D r
  waits : (p : Ptr) (b rx : ℕ) → r.0 ≡ polled pending → r.1 ≡ waiting p b rx → Finishes D r

module _ {M : Type 0} {D : Deps M} where
  -- A slot that has not been notified is pending.
  pub poll_waiting_receiver-open :
      (rx b : ℕ) (cx : Waker) (c : Chan D)
      → D.oneshot.look (c.slots rx) ≡ open_look
      → (poll_waiting_receiver rx b cx c).0 ≡ pending
  unfolding poll_waiting_receiver woken_with
  poll_waiting_receiver-open rx b cx c e = rw (D.oneshot.poll-received (c.slots rx) cx, e) refl

  -- A receiver that waits finds that it was woken for nothing: the broadcast of which it was notified has
  -- been taken from its mailbox.
  unfoldable pub IsIdleWakeup : ℕ → ℕ → Waker → Chan D → Type 0
  IsIdleWakeup rx b cx c = (poll_waiting_receiver rx b cx c).0 ≡ ready none

  -- Between two rounds, others do not notify a receiver of a broadcast and then take that broadcast.
  unfoldable pub IsCalm : Waker → (ℕ → Chan D → Chan D) → Type 0
  IsCalm cx others =
      (n rx b : ℕ) (c : Chan D)
      → D.oneshot.look (c.slots rx) ≡ open_look
      → ¬ IsIdleWakeup rx b cx (others n c)

alone-IsCalm : {M : Type 0} (D : Deps M) (cx : Waker) → IsCalm cx (λ n (c : Chan D). c)
unfolding IsCalm IsIdleWakeup
alone-IsCalm D cx n rx b c e idle = let p = poll_waiting_receiver-open rx b cx c e in cc

module _ {M : Type 0} {D : Deps M} (others : ℕ → Chan D → Chan D) where
  told-Finishes :
      (p : Ptr) (b rx fuel : ℕ) (cx : Waker) (r : Poll (Option (ActorMessage M)) × Chan D)
      → r.0 ≢ ready none
      → Finishes D (
          continue_with
            (λ t d. poll_loop others fuel t cx (others fuel d))
            (waiting_round p b rx r))
  unfolding waiting_round waiting_arm poll_waiting continue_with given
  told-Finishes p b rx fuel cx (ready none, c) e = absurd (e refl)
  told-Finishes p b rx fuel cx (ready (some m), c) e = gives _ refl refl
  told-Finishes p b rx fuel cx (pending, c) e = waits p b rx refl refl

  open-Finishes :
      (p : Ptr) (b rx fuel n : ℕ) (cx : Waker) (c : Chan D)
      → IsCalm cx others
      → D.oneshot.look (c.slots rx) ≡ open_look
      → Finishes D (poll_loop others (suc fuel) (waiting p b rx) cx (others n c))
  unfolding poll_loop round IsCalm IsIdleWakeup
  open-Finishes p b rx fuel n cx c calm e =
      told-Finishes p b rx fuel cx (poll_waiting_receiver rx b cx (others n c)) (calm n rx b c e)

  new_round-Finishes :
      (p : Ptr) (b fuel : ℕ) (cx : Waker) (c : Chan D) (r : Received M × Chan D)
      → IsCalm cx others
      → Gives c b r
      → Finishes D (
          continue_with
            (λ t d. poll_loop others (suc fuel) t cx (others (suc fuel) d))
            (new_round p b r))
  unfolding new_round continue_with given
  new_round-Finishes p b fuel cx c r calm (gives_unicast msg rest perm top rivals e) =
      rw e (gives _ refl refl)
  new_round-Finishes p b fuel cx c r calm (gives_broadcast msg rest perm rivals top e) =
      rw e (gives _ refl refl)
  new_round-Finishes p b fuel cx c r calm (gives_shutdown u v z e) = rw e (gives _ refl refl)
  new_round-Finishes p b fuel cx c r calm (gives_wait u v z e) = rw e (
      open-Finishes p b c.next_slot fuel (suc fuel) cx _ calm
        (rw ((==_iff c.next_slot c.next_slot).1 refl) D.oneshot.look-fresh))

  new-Finishes :
      (p : Ptr) (b fuel : ℕ) (cx : Waker) (c : Chan D)
      → IsCalm cx others
      → Finishes D (poll_loop others (suc (suc fuel)) (new p b) cx c)
  unfolding poll_loop round
  new-Finishes p b fuel cx c calm =
      new_round-Finishes p b fuel cx c (try_recv c b) calm (try_recv-Gives c b)

  waiting_round-Finishes :
      (p : Ptr) (b rx fuel : ℕ) (cx : Waker) (r : Poll (Option (ActorMessage M)) × Chan D)
      → IsCalm cx others
      → Finishes D (
          continue_with
            (λ t d. poll_loop others (suc (suc fuel)) t cx (others (suc (suc fuel)) d))
            (waiting_round p b rx r))
  unfolding waiting_round waiting_arm poll_waiting continue_with given
  waiting_round-Finishes p b rx fuel cx (ready (some m), c) calm = gives _ refl refl
  waiting_round-Finishes p b rx fuel cx (ready none, c) calm = new-Finishes p b fuel cx _ calm
  waiting_round-Finishes p b rx fuel cx (pending, c) calm = waits p b rx refl refl

  three-Finishes :
      (s : Receiving) (fuel : ℕ) (cx : Waker) (c : Chan D)
      → s ≢ done
      → IsCalm cx others
      → Finishes D (poll_loop others (suc (suc (suc fuel))) s cx c)
  unfolding poll_loop round
  three-Finishes (new p b) fuel cx c live calm = new-Finishes p b (suc fuel) cx c calm
  three-Finishes (waiting p b rx) fuel cx c live calm =
      waiting_round-Finishes p b rx fuel cx (poll_waiting_receiver rx b cx c) calm
  three-Finishes done fuel cx c live calm = absurd (live refl)

  -- No round panics, and the state it leaves for the next round is not that of a future that is done.
  data Sound : Round D → Type 0 where
    over : (r : Outcome D) → r.0 ≢ panicked → Sound (returns r.0 r.1 r.2)
    more : (s : Receiving) (c : Chan D) → s ≢ done → Sound (again s c)

module _ {M : Type 0} {D : Deps M} where
  -- When nobody else acts between the rounds, a poll comes to an end.
  pub poll_alone-Finishes :
      (s : Receiving) (cx : Waker) (c : Chan D) → s ≢ done → Finishes D (poll_alone s cx c)
  unfolding poll_alone
  poll_alone-Finishes s cx c live = three-Finishes (λ n d. d) s 0 cx c live (alone-IsCalm D cx)
