-- ===== src/Send/Answers.antt =====
-- What the futures of a sent message in xtra/src/send_future.rs answer.
use xtra.Prelude.{ℕ, ◌≡◌, refl, ap, true, Option, none, some, Bool-cases, inl, inr}
use xtra.Std.{Poll, ready, pending, Result, ok, err, Waker}
use xtra.Error.{Error, disconnected, interrupted}
use xtra.Deps.{Oneshot, Look, open_look, holding, hung_up, received, after_recv}
use xtra.Envelope.{MessageToOne}
use xtra.WaitingSender.{active}
use xtra.Chan.State.{Deps, Chan}
use xtra.Send.Fate.{
  IsSent, IsLost, HasToWait, FromAddress, Sends, sent, refused, waits, poll_to_one-Sends,
}
use xtra.Send.{
  Sending, new, waiting_to_send, done, SendFuture, Polled, polled, panicked, Outcome, is_terminated,
  poll_receiver, received_answer, after_sending, poll_return, hand_out, poll_detached,
}

terminated : {A : Type 0} (s : Sending A) → is_terminated s ≡ true → s ≡ done
terminated (new msg sender) e = cc
terminated (waiting_to_send h) e = cc
terminated done e = refl

module _ {R : Type 0} (O : Oneshot R) where
  -- What is known of the answer of the handler.
  abbrev pub answer_in : Look R → Poll (Result R Error)
  answer_in open_look = pending
  answer_in (holding r) = ready (ok r)
  answer_in Look.closed = ready (err interrupted)
  answer_in hung_up = ready (err interrupted)

  answered : (l : Look R) → received_answer O (received l) ≡ answer_in l
  unfolding received_answer
  answered open_look = refl
  answered (holding r) = refl
  answered Look.closed = refl
  answered hung_up = refl

  poll_receiver-answer_in :
      (s : O.State) (cx : Waker) → (poll_receiver O s cx).0 ≡ answer_in (O.look s)
  unfolding poll_receiver received_answer
  poll_receiver-answer_in s cx = rw (O.poll-received s cx) (answered (O.look s))

-- What a poll of the future that resolves to what the handler returns comes to, by the channel as it was
-- before.
pub data Answers {M R : Type 0} (D : Deps M) (O : Oneshot R) (sending : Sending (MessageToOne M))
    (s : O.State) (cx : Waker) (c : Chan D)
    (r : Polled R × O.State × Sending (MessageToOne M) × Chan D) : Type 0 where
  queues :
      (h : ℕ) (m : MessageToOne M)
      → HasToWait h m sending c
      → r.0 ≡ polled pending
      → r.1 ≡ s
      → r.2 ≡ waiting_to_send h
      → (r.3.waiting_send_to_one.cells h).inner ≡ active (some cx) m
      → Answers D O sending s cx c r
  lost :
      IsLost sending c
      → r.0 ≡ polled (ready (err disconnected))
      → r.1 ≡ s
      → r.2 ≡ done
      → Answers D O sending s cx c r
  answers :
      IsSent sending c
      → r.0 ≡ polled (answer_in O (O.look s))
      → O.look r.1 ≡ after_recv (O.look s)
      → r.2 ≡ done
      → Answers D O sending s cx c r
  asks_again :
      sending ≡ done
      → r.0 ≡ polled (answer_in O (O.look s))
      → O.look r.1 ≡ after_recv (O.look s)
      → r.2 ≡ done
      → r.3 ≡ c
      → Answers D O sending s cx c r

module _ {M R : Type 0} {D : Deps M} (O : Oneshot R) where
  after-Answers :
      (sending : Sending (MessageToOne M)) (s : O.State) (cx : Waker) (c : Chan D)
      (r : Outcome D (MessageToOne M))
      → Sends D sending cx c r
      → Answers D O sending s cx c
          ((after_sending O r.0 s cx).0, (after_sending O r.0 s cx).1, r.1, r.2)
  unfolding after_sending poll_receiver
  after-Answers sending s cx c r (sent i p e) =
      rw (p, after_sending)
        (answers i (ap polled (poll_receiver-answer_in O s cx)) (O.poll-look s cx) e)
  after-Answers sending s cx c r (refused i p e) = rw (p, after_sending) (lost i refl refl e)
  after-Answers sending s cx c r (waits h m i p e l) =
      rw (p, after_sending) (queues h m i refl refl e l)

  again-Answers :
      (sending : Sending (MessageToOne M)) (s : O.State) (cx : Waker) (c : Chan D)
      → sending ≡ done
      → Answers D O sending s cx c
          ((polled (poll_receiver O s cx).0, (poll_receiver O s cx).1, sending, c))
  unfolding poll_receiver
  again-Answers sending s cx c e =
      asks_again e (ap polled (poll_receiver-answer_in O s cx)) (O.poll-look s cx) e refl

  -- A poll of the future of a sent message, made from an address, does not panic. If the message has to
  -- wait, because nobody takes it and the mailbox is full or because it still waits since an earlier
  -- poll, the poll is pending, and the message is in the cell of its sender, which wakes this task. If
  -- the channel has no connection, or lost it while the message waited, the future is done with that
  -- error. In both cases the answer is not looked at. If the channel accepts the message now, or it was
  -- taken while it waited, the poll gives what is known of the answer: nothing yet, the handler's value,
  -- or that the handler was interrupted. If the future of the message was done already, for whichever
  -- reason, the poll gives what is known of the answer and leaves the channel as it is.
  pub poll_return-Answers :
      (sending : Sending (MessageToOne M)) (s : O.State) (cx : Waker) (c : Chan D)
      → FromAddress sending
      → Answers D O sending s cx c (poll_return O sending s cx c)
  unfolding poll_return
  poll_return-Answers sending s cx c from = elim (Bool-cases (is_terminated sending)) [
    | inl over ↦ rw over (again-Answers sending s cx c (terminated sending over))
    | inr live ↦ rw live (after-Answers sending s cx c _ (poll_to_one-Sends sending cx c live from))
  ]

-- What a poll of a detached future, which keeps the receiver `receiver` of the answer, comes to, by the
-- channel as it was before.
pub data Delivers {M : Type 0} (D : Deps M) (sending : Sending (MessageToOne M)) (receiver : ℕ)
    (cx : Waker) (c : Chan D) (r : Polled ℕ × SendFuture (MessageToOne M) (Option ℕ) × Chan D)
    : Type 0 where
  queues :
      (h : ℕ) (m : MessageToOne M)
      → HasToWait h m sending c
      → r.0 ≡ polled pending
      → r.1 ≡ record { sending = waiting_to_send h; state = some receiver }
      → (r.2.waiting_send_to_one.cells h).inner ≡ active (some cx) m
      → Delivers D sending receiver cx c r
  lost :
      IsLost sending c
      → r.0 ≡ polled (ready (err disconnected))
      → r.1 ≡ record { sending = done; state = some receiver }
      → Delivers D sending receiver cx c r
  delivers :
      IsSent sending c
      → r.0 ≡ polled (ready (ok receiver))
      → ((cx' : Waker) (d : Chan D) → (poll_detached r.1 cx' d).0 ≡ panicked)
      → Delivers D sending receiver cx c r
  asks_again :
      sending ≡ done
      → r.0 ≡ polled (ready (ok receiver))
      → ((cx' : Waker) (d : Chan D) → (poll_detached r.1 cx' d).0 ≡ panicked)
      → r.2 ≡ c
      → Delivers D sending receiver cx c r

module _ {M : Type 0} {D : Deps M} where
  spent :
      (f : SendFuture (MessageToOne M) (Option ℕ)) (cx : Waker) (c : Chan D)
      → f.sending ≡ done
      → f.state ≡ none
      → (poll_detached f cx c).0 ≡ panicked
  unfolding poll_detached hand_out
  spent f cx c d e = rw (d, e) refl

  hand_out-Delivers :
      (sending : Sending (MessageToOne M)) (receiver : ℕ) (cx : Waker) (c : Chan D)
      (r : Outcome D (MessageToOne M))
      → Sends D sending cx c r
      → Delivers D sending receiver cx c (
          (
            (hand_out r.0 (some receiver)).0,
            record { sending = r.1; state = (hand_out r.0 (some receiver)).1 },
            r.2,
          ))
  unfolding hand_out
  hand_out-Delivers sending receiver cx c r (sent i p e) =
      rw (p, hand_out) (delivers i refl (λ w d. spent _ w d e refl))
  hand_out-Delivers sending receiver cx c r (refused i p e) = rw (p, e, hand_out) (lost i refl refl)
  hand_out-Delivers sending receiver cx c r (waits h m i p e l) =
      rw (p, e, hand_out) (queues h m i refl refl l)

  -- A poll of a detached future, made from an address, that has the receiver of its answer does not
  -- panic. If the message has to wait, now or still, the poll is pending, the receiver is kept and the
  -- message is in the cell of its sender, which wakes this task. If the channel has no connection, or
  -- lost it while the message waited, the poll gives that error and the receiver is kept. If the channel
  -- accepts the message now, or it was taken while it waited, the poll gives the receiver away, after
  -- which every poll panics. If the future of the message was done already, for whichever reason, the
  -- poll gives the receiver away likewise and leaves the channel as it is.
  pub poll_detached-Delivers :
      (f : SendFuture (MessageToOne M) (Option ℕ)) (receiver : ℕ) (cx : Waker) (c : Chan D)
      → f.state ≡ some receiver
      → FromAddress f.sending
      → Delivers D f.sending receiver cx c (poll_detached f cx c)
  unfolding poll_detached hand_out
  poll_detached-Delivers f receiver cx c e from = elim (Bool-cases (is_terminated f.sending)) [
    | inl over ↦
        rw (over, e)
          (asks_again (terminated f.sending over) refl
            (λ w d. spent _ w d (terminated f.sending over) refl) refl)
    | inr live ↦
        rw (live, e)
          (hand_out-Delivers f.sending receiver cx c _ (poll_to_one-Sends f.sending cx c live from))
  ]
