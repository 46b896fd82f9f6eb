-- ===== src/Chan/Held/Slots.antt =====
-- What the operations on waiting receivers do to the messages that these hold.
use xtra.Prelude.{
  ℕ, ◌+◌, ◌<◌, ◌≡◌, refl, ◌∙◌, ap, inl, inr, true, Option, none, some, List, [], ◌∷◌, arith, All,
  All-middle, subst, ◌==◌, ==_iff, update, Bool-cases, below, sum_below-same, sum_below-changed,
}
use xtra.Deps.{Look, open_look, holding, closed, hung_up, after_send, after_recv}
use xtra.Envelope.{MessageToOne}
use xtra.WaitingReceiver.{CtrlMsg}
use xtra.Chan.State.{Deps, Chan}
use xtra.Chan.Inner.{notify_each, fulfill, try_fulfill_receiver}
use xtra.Chan.Steps.{set_slot}
use xtra.Chan.Fulfill.{is_open, Fulfilled, nobody, served, fulfill-Fulfilled, tried}
use xtra.Chan.Held.{weigh, in_ctrl, in_look, held}

module _ {M : Type 0} (w : MessageToOne M → ℕ) where
  after_send-in_look :
      (l : Look (CtrlMsg M)) (t : CtrlMsg M)
      → in_ctrl w t ≡ 0
      → in_look w (after_send l t) ≡ in_look w l
  after_send-in_look open_look t e = e
  after_send-in_look (holding u) t e = refl
  after_send-in_look closed t e = refl
  after_send-in_look hung_up t e = refl

  pub after_recv-in_look : (l : Look (CtrlMsg M)) → in_look w (after_recv l) ≡ 0
  after_recv-in_look open_look = refl
  after_recv-in_look (holding u) = refl
  after_recv-in_look closed = refl
  after_recv-in_look hung_up = refl

  open-in_look : (l : Look (CtrlMsg M)) → is_open l ≡ true → in_look w l ≡ 0
  open-in_look open_look e = refl
  open-in_look (holding u) e = cc
  open-in_look closed e = cc
  open-in_look hung_up e = cc

module _ {M : Type 0} (w : MessageToOne M → ℕ) (D : Deps M) where
  open D use {oneshot}

  -- A notification without a message changes nothing.
  pub notify_each-in_look :
      (f : oneshot.State → oneshot.State) (t : CtrlMsg M)
      → ((s : oneshot.State) → oneshot.look (f s) ≡ after_send (oneshot.look s) t)
      → in_ctrl w t ≡ 0
      → (handles : List ℕ) (slots : ℕ → oneshot.State) (i : ℕ)
      → in_look w (oneshot.look (notify_each D f handles slots i))
        ≡ in_look w (oneshot.look (slots i))
  unfolding notify_each
  notify_each-in_look f t sends e [] slots i = refl
  notify_each-in_look f t sends e (rx ∷ rest) slots i =
      notify_each-in_look f t sends e rest (update slots rx (f (slots rx))) i
      ∙ elim (Bool-cases (rx == i)) [
        | inl h ↦ rw h (
            ap (in_look w) (sends (slots rx))
            ∙ after_send-in_look w (oneshot.look (slots rx)) t e
            ∙ ap (λ x. in_look w (oneshot.look (slots x))) ((==_iff rx i).0 h))
        | inr h ↦ rw h refl
      ]

module _ {M : Type 0} (w : MessageToOne M → ℕ) {D : Deps M} (c : Chan D) where
  open D use {oneshot}

  abbrev in_slot : ℕ → ℕ
  in_slot i = in_look w (oneshot.look (c.slots i))

  -- A slot that is emptied gives up what it held.
  pub set_slot-held :
      (rx : ℕ) (s : oneshot.State)
      → in_look w (oneshot.look s) ≡ 0
      → held w (set_slot c rx s) + below c.next_slot in_slot rx ≡ held w c
  unfolding set_slot
  set_slot-held rx s e =
      let changed =
        sum_below-changed c.next_slot rx in_slot
          (λ i. in_look w (oneshot.look (update c.slots rx s i))) (λ j h. rw h refl) in
      let emptied : below c.next_slot (λ i. in_look w (oneshot.look (update c.slots rx s i))) rx
          ≡ 0 =
        rw ((==_iff rx rx).1 refl) (ground (arith, e)) in
      omega (arith, changed, emptied)

  Fulfilled-held :
      (msg : MessageToOne M) (r : Option (MessageToOne M) × List ℕ × (ℕ → oneshot.State))
      → All (λ x. x < c.next_slot) c.waiting_receivers_handles
      → fulfill D c.waiting_receivers_handles c.slots msg ≡ r
      → Fulfilled D c.waiting_receivers_handles c.slots msg r
      → weigh w (try_fulfill_receiver c msg).0 + held w (try_fulfill_receiver c msg).1
        ≡ held w c + w msg
  Fulfilled-held msg r numbered e
        (served before rx after split none_open opened taken left_is look keeps) =
      let lt =
        (All-middle (λ x. x < c.next_slot) before rx after (subst (All _) split numbered)).0 in
      let changed =
        sum_below-changed c.next_slot rx in_slot (λ i. in_look w (oneshot.look (r.2 i)))
          (λ j h. ap (in_look w) (keeps j h)) in
      let free : in_slot rx ≡ 0 = open-in_look w (oneshot.look (c.slots rx)) opened in
      let full : in_look w (oneshot.look (r.2 rx)) ≡ w msg = ap (in_look w) look in
      let old : below c.next_slot in_slot rx ≡ 0 = ground (arith, free) in
      let now : below c.next_slot (λ i. in_look w (oneshot.look (r.2 i))) rx ≡ w msg =
        ground (arith, full, lt) in
      rw (tried c msg none after r.2 r e taken left_is refl) (omega (arith, changed, old, now))
  Fulfilled-held msg r numbered e (nobody none_open back left_is keeps) =
      let same =
        sum_below-same c.next_slot in_slot (λ i. in_look w (oneshot.look (r.2 i)))
          (λ i lt. ap (in_look w) (keeps i)) in
      rw (tried c msg (some msg) [] r.2 r e back left_is refl) (omega (arith, same))

  -- A message that is offered to the receivers that wait is then with one of them, or comes back.
  pub try_fulfill_receiver-held :
      (msg : MessageToOne M)
      → All (λ x. x < c.next_slot) c.waiting_receivers_handles
      → weigh w (try_fulfill_receiver c msg).0 + held w (try_fulfill_receiver c msg).1
        ≡ held w c + w msg
  try_fulfill_receiver-held msg numbered =
      Fulfilled-held msg _ numbered refl
        (fulfill-Fulfilled D c.waiting_receivers_handles c.slots msg)
