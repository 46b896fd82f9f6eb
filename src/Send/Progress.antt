-- ===== src/Send/Progress.antt =====
-- What a poll of a sent message in xtra/src/send_future.rs can come to.
use xtra.Prelude.{ℕ, ◌≡◌, refl, false, some}
use xtra.Std.{ready, pending, Result, ok, err, Waker}
use xtra.Error.{Error}
use xtra.Envelope.{MessageToOne, MessageToAll}
use xtra.WaitingSender.{Inner, active}
use xtra.WaitingQueue.{WaitingQueue}
use xtra.Chan.State.{Deps, Chan}
use xtra.Chan.Methods.{Sent, accepted, mailbox_full, try_send_to_one, try_send_to_all}
use xtra.Send.{
  Sending, new, waiting_to_send, done, polled, Outcome, is_terminated, poll_to_one, poll_to_all,
  sent_to_one, sent_to_all, poll_waiting_to_one, poll_waiting_to_all,
}
use xtra.Send.Waiting.{Waited, taken, dropped, stays, waiting_to_one-Waited, waiting_to_all-Waited}

-- A poll that gives no panic, after which the future is done exactly when the poll was ready. When it was
-- pending, the sender with which the future goes on waits in the line of the channel with a message, and
-- the task that polled is to be woken.
pub data Settles {M : Type 0} (D : Deps M) {A : Type 0} (line : Chan D → WaitingQueue A)
    (cx : Waker) (r : Outcome D A) : Type 0 where
  resolved :
      (x : Result (Unit {0}) Error) → r.0 ≡ polled (ready x) → r.1 ≡ done → Settles D line cx r
  waits :
      (h : ℕ) (m : A)
      → r.0 ≡ polled pending
      → r.1 ≡ waiting_to_send h
      → ((line r.2).cells h).inner ≡ active (some cx) m
      → Settles D line cx r

module _ {M : Type 0} {D : Deps M} where
  Waited-Settles :
      {A : Type 0} (line : Chan D → WaitingQueue A) (h : ℕ) (cx : Waker) (held : Inner A)
      (r : Outcome D A)
      → Waited D line h cx held r
      → Settles D line cx r
  Waited-Settles line h cx held r (taken i p e) = resolved (ok tt) p e
  Waited-Settles line h cx held r (dropped i p e) = resolved _ p e
  Waited-Settles line h cx held r (stays w m i p e l) = waits h m p e l

  waiting_to_one-Settles :
      (h : ℕ) (cx : Waker) (c : Chan D)
      → Settles D (λ d. d.waiting_send_to_one) cx (poll_waiting_to_one h cx c)
  waiting_to_one-Settles h cx c = Waited-Settles _ h cx _ _ (waiting_to_one-Waited h cx c _ refl)

  waiting_to_all-Settles :
      (h : ℕ) (cx : Waker) (c : Chan D)
      → Settles D (λ d. d.waiting_send_to_all) cx (poll_waiting_to_all h cx c)
  waiting_to_all-Settles h cx c = Waited-Settles _ h cx _ _ (waiting_to_all-Waited h cx c _ refl)

  sent_to_one-Settles :
      (r : Result Sent Error) (cx : Waker) (c : Chan D)
      → Settles D (λ d. d.waiting_send_to_one) cx (sent_to_one r cx c)
  unfolding sent_to_one
  sent_to_one-Settles (err e) cx c = resolved (err e) refl refl
  sent_to_one-Settles (ok accepted) cx c = resolved (ok tt) refl refl
  sent_to_one-Settles (ok (mailbox_full h)) cx c = waiting_to_one-Settles h cx c

  sent_to_all-Settles :
      (r : Result Sent Error) (cx : Waker) (c : Chan D)
      → Settles D (λ d. d.waiting_send_to_all) cx (sent_to_all r cx c)
  unfolding sent_to_all
  sent_to_all-Settles (err e) cx c = resolved (err e) refl refl
  sent_to_all-Settles (ok accepted) cx c = resolved (ok tt) refl refl
  sent_to_all-Settles (ok (mailbox_full h)) cx c = waiting_to_all-Settles h cx c

  to_one-Settles :
      (s : Sending (MessageToOne M)) (cx : Waker) (c : Chan D)
      → is_terminated s ≡ false
      → Settles D (λ d. d.waiting_send_to_one) cx (poll_to_one s cx c)
  unfolding poll_to_one
  to_one-Settles (new msg sender) cx c live = sent_to_one-Settles (try_send_to_one c msg).0 cx _
  to_one-Settles (waiting_to_send h) cx c live = waiting_to_one-Settles h cx c
  to_one-Settles done cx c live = cc

  to_all-Settles :
      (s : Sending (MessageToAll M)) (cx : Waker) (c : Chan D)
      → is_terminated s ≡ false
      → Settles D (λ d. d.waiting_send_to_all) cx (poll_to_all s cx c)
  unfolding poll_to_all
  to_all-Settles (new msg sender) cx c live = sent_to_all-Settles (try_send_to_all c msg).0 cx _
  to_all-Settles (waiting_to_send h) cx c live = waiting_to_all-Settles h cx c
  to_all-Settles done cx c live = cc

  -- A poll of a message that is being sent, to one actor or to all, does not panic as long as the
  -- future is not terminated. Either it is ready and the future is terminated; or it is pending and the
  -- future goes on with a sender whose cell in the channel is active, with a message, and with the task
  -- that polled as the one to wake.
  pub poll-Settles :
      (one : Sending (MessageToOne M)) (all : Sending (MessageToAll M)) (cx : Waker) (c : Chan D)
      → is_terminated one ≡ false
      → is_terminated all ≡ false
      → Settles D (λ d. d.waiting_send_to_one) cx (poll_to_one one cx c)
        × Settles D (λ d. d.waiting_send_to_all) cx (poll_to_all all cx c)
  poll-Settles one all cx c live live' =
      (to_one-Settles one cx c live, to_all-Settles all cx c live')
