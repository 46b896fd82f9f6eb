-- ===== src/Send/Fate.antt =====
-- What becomes of a message for one actor at a poll of its future in xtra/src/send_future.rs.
use xtra.Prelude.{
  ℕ, ◌≡◌, ◌≢◌, refl, sym, ap, ◌∙◌, true, false, Option, none, some, Bool-cases, inl, inr, ==_iff,
  arith,
}
use xtra.Std.{ready, pending, ok, err, Waker}
use xtra.Error.{disconnected}
use xtra.Envelope.{MessageToOne, start_span_to_one}
use xtra.WaitingSender.{Inner, active, delivered, closed}
use xtra.WaitingSender
use xtra.WaitingQueue
use xtra.Chan.State.{Deps, Chan}
use xtra.Chan.Fulfill.{handed_over, queued, parked, queue_to_one-Placed}
use xtra.Chan.Methods.{
  Sent, accepted, mailbox_full, is_connected, queue_to_one, try_send_to_one, on_sender_dropped,
  shutdown_waiting_receivers,
}
use xtra.Ptr
use xtra.Ptr.{Ptr, RefCounter, strong, weak, tx_strong, tx_weak, tx_either, rx, destroy}
use xtra.Send.{
  Sending, new, waiting_to_send, done, polled, Outcome, is_terminated, poll_to_one, sent_to_one,
  poll_waiting_to_one,
}
use xtra.Send.Waiting.{taken, dropped, stays, waiting_to_one-Waited}

module _ {M : Type 0} {D : Deps M} where
  -- By the channel as it is before a poll, the message is sent at the poll or has been taken before it.
  unfoldable pub IsSent : Sending (MessageToOne M) → Chan D → Type 0
  IsSent (new msg sender) c =
      (is_connected c ≡ true) × ((queue_to_one c (start_span_to_one msg)).0 ≡ accepted)
  IsSent (waiting_to_send h) c = (c.waiting_send_to_one.cells h).inner ≡ delivered
  IsSent done c = ⊥

  -- Likewise, the channel has no connection, or lost it while the message waited.
  unfoldable pub IsLost : Sending (MessageToOne M) → Chan D → Type 0
  IsLost (new msg sender) c = is_connected c ≡ false
  IsLost (waiting_to_send h) c = (c.waiting_send_to_one.cells h).inner ≡ closed
  IsLost done c = ⊥

  -- Likewise, the message `m` has to wait in the channel, with the sender `h`.
  unfoldable pub HasToWait : ℕ → MessageToOne M → Sending (MessageToOne M) → Chan D → Type 0
  HasToWait h m (new msg sender) c =
      (is_connected c ≡ true)
      × ((queue_to_one c (start_span_to_one msg)).0 ≡ mailbox_full h)
      × (m ≡ start_span_to_one msg)
  HasToWait h m (waiting_to_send i) c =
      (i ≡ h) × ((w : Option Waker) × ((c.waiting_send_to_one.cells h).inner ≡ active w m))
  HasToWait h m done c = ⊥

-- The pointer of a message that is not sent yet is that of an address.
abbrev pub FromAddress : {A : Type 0} → Sending A → Type 0
FromAddress (new msg sender) = sender.ref_counter ≢ rx
FromAddress (waiting_to_send h) = Unit
FromAddress done = Unit

pub data Sends {M : Type 0} (D : Deps M) (s : Sending (MessageToOne M)) (cx : Waker) (c : Chan D)
    (r : Outcome D (MessageToOne M)) : Type 0 where
  sent : IsSent s c → r.0 ≡ polled (ready (ok tt)) → r.1 ≡ done → Sends D s cx c r
  refused : IsLost s c → r.0 ≡ polled (ready (err disconnected)) → r.1 ≡ done → Sends D s cx c r
  waits :
      (h : ℕ) (m : MessageToOne M)
      → HasToWait h m s c
      → r.0 ≡ polled pending
      → r.1 ≡ waiting_to_send h
      → (r.2.waiting_send_to_one.cells h).inner ≡ active (some cx) m
      → Sends D s cx c r

accepted-not : (h : ℕ) → accepted ≢ mailbox_full h
accepted-not h e = cc

module _ {M : Type 0} {D : Deps M} where
  -- A message that has to wait is in the cell of its sender.
  queue_to_one-active :
      (c : Chan D) (msg : MessageToOne M) (h : ℕ)
      → (queue_to_one c msg).0 ≡ mailbox_full h
      → ((queue_to_one c msg).1.waiting_send_to_one.cells h).inner ≡ active none msg
  unfolding WaitingQueue.push_back WaitingSender.new
  queue_to_one-active c msg h e = elim (queue_to_one-Placed c msg) [
    | handed_over before slot after slots split none_open opened held keeps r ↦
        absurd (accepted-not h (sym (ap (λ x. x.0) r) ∙ e))
    | queued d w f r ↦ absurd (accepted-not h (sym (ap (λ x. x.0) r) ∙ e))
    | parked d w f r ↦
        let same : mailbox_full d.waiting_send_to_one.next_cell ≡ mailbox_full h =
          sym (ap (λ x. x.0) r) ∙ e in
        let at : d.waiting_send_to_one.next_cell ≡ h = cc in
        rw (r, (==_iff d.waiting_send_to_one.next_cell h).1 at) refl
  ]

  dropped-line : (c : Chan D) → (on_sender_dropped c).waiting_send_to_one ≡ c.waiting_send_to_one
  unfolding on_sender_dropped shutdown_waiting_receivers
  dropped-line c = ground arith

  destroy-line :
      (k : RefCounter) (c : Chan D)
      → k ≢ rx
      → (destroy k c).waiting_send_to_one ≡ c.waiting_send_to_one
  unfolding destroy
  destroy-line tx_strong c live = dropped-line c
  destroy-line tx_weak c live = refl
  destroy-line (tx_either strong) c live = dropped-line c
  destroy-line (tx_either weak) c live = refl
  destroy-line rx c live = absurd (live refl)

  -- The pointer of an address is dropped without a change of the line of senders.
  drop-line :
      (p : Ptr) (c : Chan D)
      → p.ref_counter ≢ rx
      → (Ptr.drop p c).waiting_send_to_one ≡ c.waiting_send_to_one
  unfolding Ptr.drop
  drop-line p c sends = destroy-line p.ref_counter c sends

  queued-Sends :
      (msg : MessageToOne M) (sender : Ptr) (cx : Waker) (c : Chan D) (q : Sent)
      → sender.ref_counter ≢ rx
      → is_connected c ≡ true
      → (queue_to_one c (start_span_to_one msg)).0 ≡ q
      → Sends D
          (new msg sender)
          cx
          c
          (sent_to_one (ok q) cx (Ptr.drop sender (queue_to_one c (start_span_to_one msg)).1))
  unfolding sent_to_one IsSent HasToWait
  queued-Sends msg sender cx c accepted from up e = sent (up, e) refl refl
  queued-Sends msg sender cx c (mailbox_full h) from up e =
      let d = Ptr.drop sender (queue_to_one c (start_span_to_one msg)).1 in
      let held : (d.waiting_send_to_one.cells h).inner ≡ active none (start_span_to_one msg) =
        rw (drop-line sender (queue_to_one c (start_span_to_one msg)).1 from)
          (queue_to_one-active c (start_span_to_one msg) h e) in
      elim (waiting_to_one-Waited h cx d _ held) [
        | taken i p f ↦ cc
        | dropped i p f ↦ cc
        | stays w m i p f l ↦ waits h (start_span_to_one msg) (up, e, refl) p f (l ∙ cc)
      ]

  waiting-Sends :
      (h : ℕ) (cx : Waker) (c : Chan D)
      → Sends D (waiting_to_send h) cx c (poll_waiting_to_one h cx c)
  unfolding IsSent IsLost HasToWait
  waiting-Sends h cx c = elim (waiting_to_one-Waited h cx c _ refl) [
    | taken i p f ↦ sent i p f
    | dropped i p f ↦ refused i p f
    | stays w m i p f l ↦ waits h m (refl, (w, i)) p f l
  ]

  new-Sends :
      (msg : MessageToOne M) (sender : Ptr) (cx : Waker) (c : Chan D)
      → sender.ref_counter ≢ rx
      → Sends D (new msg sender) cx c (poll_to_one (new msg sender) cx c)
  unfolding poll_to_one try_send_to_one sent_to_one IsLost
  new-Sends msg sender cx c from = elim (Bool-cases (is_connected c)) [
    | inl up ↦ rw up (queued-Sends msg sender cx c _ from up refl)
    | inr down ↦ rw down (refused down refl refl)
  ]

  pub poll_to_one-Sends :
      (s : Sending (MessageToOne M)) (cx : Waker) (c : Chan D)
      → is_terminated s ≡ false
      → FromAddress s
      → Sends D s cx c (poll_to_one s cx c)
  unfolding poll_to_one
  poll_to_one-Sends (new msg sender) cx c live from = new-Sends msg sender cx c from
  poll_to_one-Sends (waiting_to_send h) cx c live from = waiting-Sends h cx c
  poll_to_one-Sends done cx c live from = cc
