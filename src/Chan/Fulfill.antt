-- ===== src/Chan/Fulfill.antt =====
-- `try_fulfill_receiver` and the sending of a message to one actor.
use xtra.Prelude.{
  ℕ, ◌≡◌, refl, ap, ◌∙◌, ◌⊎◌, inl, inr, Bool, true, false, Option, none, some, List, [], ◌∷◌, ◌++◌,
  arith, All, All-mono, ◌==◌, ==_iff, update, Bool-cases,
}
use xtra.Std.{ok, err}
use xtra.Error.{disconnected}
use xtra.Deps.{Oneshot, Look, open_look, holding, closed, hung_up}
use xtra.Envelope.{MessageToOne, start_span_to_one}
use xtra.WaitingReceiver.{CtrlMsg, new_message, notify_new_message}
use xtra.WaitingQueue.{push_back}
use xtra.Chan.State.{Deps, Chan}
use xtra.Chan.Inner.{fulfill, try_fulfill_receiver, push_unicast, is_unicast_full}
use xtra.Chan.Methods.{
  Sent, accepted, mailbox_full, queue_to_one, place_to_one, try_send_to_one, is_connected,
}

abbrev pub is_open : {T : Type 0} → Look T → Bool
is_open open_look = true
is_open (holding t) = false
is_open closed = false
is_open hung_up = false

module _ {M : Type 0} (O : Oneshot (CtrlMsg M)) (s : O.State) (msg : MessageToOne M) where
  -- A receiver that still waits takes the message.
  notify-open :
      is_open (O.look s) ≡ true
      → ((notify_new_message O s msg).0 ≡ none)
        × (O.look (notify_new_message O s msg).1 ≡ holding (new_message msg))
  unfolding notify_new_message
  notify-open h =
      ground (arith, O.send-refused s (new_message msg), O.send-look s (new_message msg))

  -- From any other the very message comes back: `unreachable!()` is not reached.
  pub notify_new_message-refused :
      is_open (O.look s) ≡ false
      → ((notify_new_message O s msg).0 ≡ some msg)
        × (O.look (notify_new_message O s msg).1 ≡ O.look s)
  unfolding notify_new_message
  notify_new_message-refused h =
      ground (arith, O.send-refused s (new_message msg), O.send-look s (new_message msg))

module _ {M : Type 0} (D : Deps M) where
  open D use {oneshot}

  -- The receivers that wait no longer are passed over, and the first one that waits has the message.
  pub data Fulfilled (handles : List ℕ) (slots : ℕ → oneshot.State) (msg : MessageToOne M)
      (r : Option (MessageToOne M) × List ℕ × (ℕ → oneshot.State)) : Type 0 where
    nobody :
        All (λ rx. is_open (oneshot.look (slots rx)) ≡ false) handles
        → r.0 ≡ some msg
        → r.1 ≡ []
        → ((i : ℕ) → oneshot.look (r.2 i) ≡ oneshot.look (slots i))
        → Fulfilled handles slots msg r
    served :
        (before : List ℕ) (rx : ℕ) (after : List ℕ)
        → handles ≡ before ++ rx ∷ after
        → All (λ x. is_open (oneshot.look (slots x)) ≡ false) before
        → is_open (oneshot.look (slots rx)) ≡ true
        → r.0 ≡ none
        → r.1 ≡ after
        → oneshot.look (r.2 rx) ≡ holding (new_message msg)
        → ((i : ℕ) → (rx == i) ≡ false → oneshot.look (r.2 i) ≡ oneshot.look (slots i))
        → Fulfilled handles slots msg r

  -- One refused notification changes the look of no slot.
  refused-look :
      (slots : ℕ → oneshot.State) (rx : ℕ) (msg : MessageToOne M)
      → is_open (oneshot.look (slots rx)) ≡ false
      → (i : ℕ)
      → oneshot.look (update slots rx (notify_new_message oneshot (slots rx) msg).1 i)
        ≡ oneshot.look (slots i)
  refused-look slots rx msg h i = elim (Bool-cases (rx == i)) [
    | inl e ↦ rw e (
        (notify_new_message-refused oneshot (slots rx) msg h).1
        ∙ ap (λ x. oneshot.look (slots x)) ((==_iff rx i).0 e))
    | inr e ↦ rw e
  ]

  Fulfilled-cons :
      (rx : ℕ) (rest : List ℕ) (slots slots' : ℕ → oneshot.State) (msg : MessageToOne M)
      (r : Option (MessageToOne M) × List ℕ × (ℕ → oneshot.State))
      → is_open (oneshot.look (slots rx)) ≡ false
      → ((i : ℕ) → oneshot.look (slots' i) ≡ oneshot.look (slots i))
      → Fulfilled rest slots' msg r
      → Fulfilled (rx ∷ rest) slots msg r
  Fulfilled-cons rx rest slots slots' msg r h same (nobody none_open e e' keeps) =
      nobody (h, All-mono _ _ rest (λ x p. rw (← same x) p) none_open) e e' (λ i. keeps i ∙ same i)
  Fulfilled-cons rx rest slots slots' msg r h same
        (served before x after split none_open o e e' held keeps) =
      served (rx ∷ before) x after (ap (◌∷◌ rx) split)
        (h, All-mono _ _ before (λ y p. rw (← same y) p) none_open) (rw (← same x) o) e e' held
        (λ i ne. keeps i ne ∙ same i)

  pub fulfill-Fulfilled :
      (handles : List ℕ) (slots : ℕ → oneshot.State) (msg : MessageToOne M)
      → Fulfilled handles slots msg (fulfill D handles slots msg)
  unfolding fulfill notify_new_message
  fulfill-Fulfilled [] slots msg = nobody tt refl refl (λ i. refl)
  fulfill-Fulfilled (rx ∷ rest) slots msg =
      let (back, slot) = notify_new_message oneshot (slots rx) msg in
      elim (Bool-cases (is_open (oneshot.look (slots rx)))) [
        | inl o ↦
            let (taken, held) = notify-open oneshot (slots rx) msg o in
            rw taken (
              served [] rx rest refl tt o refl refl (rw ((==_iff rx rx).1 refl) held)
                (λ i ne. rw ne))
        | inr o ↦
            let (given_back, look) = notify_new_message-refused oneshot (slots rx) msg o in
            rw given_back (
              Fulfilled-cons rx rest slots (update slots rx slot) msg _ o
                (refused-look slots rx msg o) (fulfill-Fulfilled rest (update slots rx slot) msg))
      ]

module _ {M : Type 0} {D : Deps M} (c : Chan D) (msg : MessageToOne M) where
  open D use {oneshot}

  -- `d` is `c` but for the line of waiting receivers, all of which are gone, and their slots, which
  -- look as before.
  pub record NobodyWaits (d : Chan D) : Type 0 where
    pub none_open :
        All (λ rx. is_open (oneshot.look (c.slots rx)) ≡ false) c.waiting_receivers_handles
    pub slots : ℕ → oneshot.State
    pub looks : (i : ℕ) → oneshot.look (slots i) ≡ oneshot.look (c.slots i)
    pub state : d ≡ record c { waiting_receivers_handles = []; slots = slots }

  -- Where the message goes that passed the check of the connection.
  pub data Placed (r : Sent × Chan D) : Type 0 where
    handed_over :
        (before : List ℕ) (rx : ℕ) (after : List ℕ) (slots : ℕ → oneshot.State)
        → c.waiting_receivers_handles ≡ before ++ rx ∷ after
        → All (λ x. is_open (oneshot.look (c.slots x)) ≡ false) before
        → is_open (oneshot.look (c.slots rx)) ≡ true
        → oneshot.look (slots rx) ≡ holding (new_message msg)
        → ((i : ℕ) → (rx == i) ≡ false → oneshot.look (slots i) ≡ oneshot.look (c.slots i))
        → r ≡ (accepted, record c { waiting_receivers_handles = after; slots = slots })
        → Placed r
    queued :
        (d : Chan D)
        → NobodyWaits d
        → is_unicast_full d ≡ false
        → r ≡ (accepted, push_unicast d msg)
        → Placed r
    parked :
        (d : Chan D)
        → NobodyWaits d
        → is_unicast_full d ≡ true
        → r ≡ (
          mailbox_full d.waiting_send_to_one.next_cell,
          record d { waiting_send_to_one = (push_back d.waiting_send_to_one msg).1 },
        )
        → Placed r

  pub tried :
      (o : Option (MessageToOne M)) (left : List ℕ) (slots : ℕ → oneshot.State)
      (r : Option (MessageToOne M) × List ℕ × (ℕ → oneshot.State))
      → fulfill D c.waiting_receivers_handles c.slots msg ≡ r
      → r.0 ≡ o
      → r.1 ≡ left
      → r.2 ≡ slots
      → try_fulfill_receiver c msg
        ≡ (o, record c { waiting_receivers_handles = left; slots = slots })
  unfolding try_fulfill_receiver
  tried o left slots r e e0 e1 e2 = rw (e, e0, e1, e2)

  Fulfilled-Placed :
      (r : Option (MessageToOne M) × List ℕ × (ℕ → oneshot.State))
      → fulfill D c.waiting_receivers_handles c.slots msg ≡ r
      → Fulfilled D c.waiting_receivers_handles c.slots msg r
      → Placed (queue_to_one c msg)
  unfolding queue_to_one place_to_one push_back
  Fulfilled-Placed r e (served before rx after split none_open opened taken left_is held keeps) =
      handed_over before rx after r.2 split none_open opened held keeps
        (rw (tried none after r.2 r e taken left_is refl))
  Fulfilled-Placed r e (nobody none_open back left_is keeps) =
      let d : Chan D = record c { waiting_receivers_handles = []; slots = r.2 } in
      let waits : NobodyWaits d = record {
        none_open = none_open;
        slots = r.2;
        looks = keeps;
        state = refl;
      } in
      let gone = tried (some msg) [] r.2 r e back left_is refl in
      elim (Bool-cases (is_unicast_full d)) [
        | inl f ↦ parked d waits f (rw (gone, f))
        | inr f ↦ queued d waits f (rw (gone, f))
      ]

  pub queue_to_one-Placed : Placed (queue_to_one c msg)
  queue_to_one-Placed =
      Fulfilled-Placed _ refl (fulfill-Fulfilled D c.waiting_receivers_handles c.slots msg)

module _ {M : Type 0} {D : Deps M} (c : Chan D) (msg : MessageToOne M) where
  -- Without a connection the channel refuses the message and stays as it is. With one, the message
  -- goes to one place: to the receiver that has waited longest, if any waits; else into the mailbox,
  -- if that has room; else it stays with its sender, the last in that line.
  pub try_send_to_one-Placed :
      ((is_connected c ≡ false) × (try_send_to_one c msg ≡ (err disconnected, c)))
      ⊎ ((s : Sent) × (d : Chan D) × (is_connected c ≡ true)
          × Placed c (start_span_to_one msg) (s, d)
          × (try_send_to_one c msg ≡ (ok s, d)))
  unfolding try_send_to_one
  try_send_to_one-Placed = elim (Bool-cases (is_connected c)) [
    | inl y ↦ inr (_, _, y, queue_to_one-Placed c (start_span_to_one msg), rw y)
    | inr n ↦ inl (n, rw n)
  ]
