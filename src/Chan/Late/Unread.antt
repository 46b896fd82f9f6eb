-- ===== src/Chan/Late/Unread.antt =====
-- `try_send_to_one` of xtra/src/chan.rs, when the last receiver is dropped between its check of the
-- connection and its lock.
use xtra.Prelude.{◌≡◌, refl, ap, ◌∙◌, subst, true, false, ==_iff, All, All-middle}
use xtra.Priority.{by_priority}
use xtra.BinaryHeap
use xtra.BinaryHeap.Laws.{to_list-push}
use xtra.Envelope.{MessageToOne}
use xtra.Chan.State.{Deps, Chan}
use xtra.Chan.Inner.{reached, push_unicast, is_unicast_full}
use xtra.Chan.Fulfill.{is_open, Placed, handed_over, queued, parked, queue_to_one-Placed}
use xtra.Chan.Methods.{
  accepted, is_connected, on_receiver_dropped, shutdown_waiting_senders, queue_to_one,
}
use xtra.Chan.Late.{IsLeft, Steps-IsLeft, NoReceiverSteps}

module _ {M : Type 0} {D : Deps M} where
  gone-empty :
      (c : Chan D)
      → c.receiver_count ≡ 1
      → ((on_receiver_dropped c).receiver_count ≡ 0)
        × ((on_receiver_dropped c).unicast_queue ≡ BinaryHeap.empty)
        × ((on_receiver_dropped c).capacity ≡ c.capacity)
        × ((on_receiver_dropped c).waiting_receivers_handles ≡ c.waiting_receivers_handles)
        × ((on_receiver_dropped c).slots ≡ c.slots)
  unfolding on_receiver_dropped shutdown_waiting_senders
  gone-empty c e = rw ((==_iff c.receiver_count 1).1 e, e) (refl, refl, refl, refl, refl)

  empty-room :
      (d : Chan D)
      → reached d.capacity 0 ≡ false
      → d.unicast_queue ≡ BinaryHeap.empty
      → is_unicast_full d ≡ false
  unfolding is_unicast_full BinaryHeap.len BinaryHeap.empty
  empty-room d room e = rw e room

  -- Nobody in the line can be handed a message.
  abbrev pub NobodyOpen : Chan D → Type 0
  NobodyOpen c =
      All (λ rx. is_open (D.oneshot.look (c.slots rx)) ≡ false) c.waiting_receivers_handles

  Placed-IsLeft :
      (c : Chan D) (msg : MessageToOne M)
      → c.receiver_count ≡ 0
      → is_unicast_full c ≡ false
      → NobodyOpen c
      → Placed c msg (queue_to_one c msg)
      → ((queue_to_one c msg).0 ≡ accepted) × IsLeft msg (queue_to_one c msg).1
  unfolding is_unicast_full push_unicast
  Placed-IsLeft c msg none_left room idle
        (handed_over before rx after slots split o opened h keeps r) =
      let closed = (All-middle _ before rx after (subst (All _) split idle)).0 in
      absurd (cc (closed, opened))
  Placed-IsLeft c msg none_left room idle (parked d w f r) =
      absurd (cc (room, subst (λ x. is_unicast_full x ≡ true) w.state f))
  Placed-IsLeft c msg none_left room idle (queued d w f r) = rw r (
    refl,
    record {
      no_receivers = ap (λ x. x.receiver_count) w.state ∙ none_left;
      others = BinaryHeap.to_list d.unicast_queue;
      left = to_list-push d.unicast_queue (by_priority msg);
    },
  )

  lost_connection : (d : Chan D) → d.receiver_count ≡ 0 → is_connected d ≡ false
  unfolding is_connected
  lost_connection d e = rw e refl

  -- When the last receiver is dropped after a sender has found the channel connected and before that
  -- sender takes the lock, none of the receivers in the line being open and the capacity not being
  -- 0, the message of the sender is accepted. After any steps without receivers the channel is not
  -- connected and the message is still in its mailbox.
  pub queue_to_one-IsLeft :
      (c : Chan D) (msg : MessageToOne M) {d : Chan D}
      → c.receiver_count ≡ 1
      → reached c.capacity 0 ≡ false
      → NobodyOpen c
      → NoReceiverSteps (queue_to_one (on_receiver_dropped c) msg).1 d
      → ((queue_to_one (on_receiver_dropped c) msg).0 ≡ accepted)
        × (is_connected d ≡ false)
        × IsLeft msg d
  queue_to_one-IsLeft c msg {d} one room idle path =
      let c' = on_receiver_dropped c in
      let (none_left, empty, capacity, line, slots) = gone-empty c one in
      let (ok, left) =
        Placed-IsLeft c' msg none_left (empty-room c' (rw capacity room) empty)
          (rw (line, slots) idle) (queue_to_one-Placed c' msg) in
      let k = Steps-IsLeft msg path left in (ok, lost_connection d k.no_receivers, k)
