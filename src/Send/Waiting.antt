-- ===== src/Send/Waiting.antt =====
-- A sender of xtra/src/send_future.rs that is in the channel, and a poll of it.
use xtra.Prelude.{ℕ, ◌≡◌, refl, Option, some, ==_iff}
use xtra.Std.{ready, pending, ok, err, Waker}
use xtra.Error.{disconnected}
use xtra.Envelope.{MessageToOne, MessageToAll}
use xtra.WaitingSender.{Inner, active, delivered, closed}
use xtra.WaitingSender
use xtra.WaitingQueue.{WaitingQueue, poll_sender}
use xtra.Chan.State.{Deps, Chan}
use xtra.Send.{
  waiting_to_send, done, polled, Outcome, poll_waiting_to_one, poll_waiting_to_all, waited_to_one,
  waited_to_all,
}

-- What a poll of the waiting sender `h` comes to, by what its cell held before: its message has been taken,
-- or its handle was dropped, or it goes on waiting with the message, and `cx` is to be woken.
pub data Waited {M : Type 0} (D : Deps M) {A : Type 0} (line : Chan D → WaitingQueue A) (h : ℕ)
    (cx : Waker) (held : Inner A) (r : Outcome D A) : Type 0 where
  taken : held ≡ delivered → r.0 ≡ polled (ready (ok tt)) → r.1 ≡ done → Waited D line h cx held r
  dropped :
      held ≡ closed
      → r.0 ≡ polled (ready (err disconnected))
      → r.1 ≡ done
      → Waited D line h cx held r
  stays :
      (w : Option Waker) (m : A)
      → held ≡ active w m
      → r.0 ≡ polled pending
      → r.1 ≡ waiting_to_send h
      → ((line r.2).cells h).inner ≡ active (some cx) m
      → Waited D line h cx held r

module _ {M : Type 0} {D : Deps M} where
  pub waiting_to_one-Waited :
      (h : ℕ) (cx : Waker) (c : Chan D) (held : Inner (MessageToOne M))
      → (c.waiting_send_to_one.cells h).inner ≡ held
      → Waited D (λ d. d.waiting_send_to_one) h cx held (poll_waiting_to_one h cx c)
  unfolding poll_waiting_to_one poll_sender WaitingSender.poll waited_to_one
  waiting_to_one-Waited h cx c (active w m) e =
      rw e (stays w m refl refl refl (rw ((==_iff h h).1 refl) refl))
  waiting_to_one-Waited h cx c delivered e = rw e (taken refl refl refl)
  waiting_to_one-Waited h cx c closed e = rw e (dropped refl refl refl)

  pub waiting_to_all-Waited :
      (h : ℕ) (cx : Waker) (c : Chan D) (held : Inner (MessageToAll M))
      → (c.waiting_send_to_all.cells h).inner ≡ held
      → Waited D (λ d. d.waiting_send_to_all) h cx held (poll_waiting_to_all h cx c)
  unfolding poll_waiting_to_all poll_sender WaitingSender.poll waited_to_all
  waiting_to_all-Waited h cx c (active w m) e =
      rw e (stays w m refl refl refl (rw ((==_iff h h).1 refl) refl))
  waiting_to_all-Waited h cx c delivered e = rw e (taken refl refl refl)
  waiting_to_all-Waited h cx c closed e = rw e (dropped refl refl refl)
