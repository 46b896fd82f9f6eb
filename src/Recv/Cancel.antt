-- ===== src/Recv/Cancel.antt =====
-- `Drop for Waiting` in xtra/src/recv_future.rs: a receiver that is given up does not take a message
-- with it.
use xtra.Prelude.{ℕ, ◌≡◌, refl, true, false, Option, none, some, List, [], ◌∷◌, ◌++◌, All, ◌==◌}
use xtra.Deps.{holding}
use xtra.Envelope.{MessageToOne}
use xtra.WaitingReceiver.{new_message, cancel}
use xtra.Chan.State.{Deps, Chan}
use xtra.Chan.Inner.{fulfill, push_unicast}
use xtra.Chan.Methods.{requeue_message, requeue_unfulfilled}
use xtra.Chan.Steps.{set_slot}
use xtra.Chan.Fulfill.{is_open, NobodyWaits, Fulfilled, served, nobody, fulfill-Fulfilled, tried}
use xtra.Recv.{drop_waiting, requeued}

module _ {M : Type 0} {D : Deps M} (c : Chan D) (msg : MessageToOne M) where
  open D use {oneshot}

  -- Where a message goes that comes back: to the next receiver that waits, or else into the mailbox,
  -- even if that is full.
  pub data Requeued (d : Chan D) : Type 0 where
    handed_over :
        (before : List ℕ) (rx : ℕ) (after : List ℕ) (slots : ℕ → oneshot.State)
        → c.waiting_receivers_handles ≡ before ++ rx ∷ after
        → All (λ x. is_open (oneshot.look (c.slots x)) ≡ false) before
        → is_open (oneshot.look (c.slots rx)) ≡ true
        → oneshot.look (slots rx) ≡ holding (new_message msg)
        → ((i : ℕ) → (rx == i) ≡ false → oneshot.look (slots i) ≡ oneshot.look (c.slots i))
        → d ≡ record c { waiting_receivers_handles = after; slots = slots }
        → Requeued d
    queued : (d' : Chan D) → NobodyWaits c msg d' → d ≡ push_unicast d' msg → Requeued d

  Fulfilled-Requeued :
      (r : Option (MessageToOne M) × List ℕ × (ℕ → oneshot.State))
      → fulfill D c.waiting_receivers_handles c.slots msg ≡ r
      → Fulfilled D c.waiting_receivers_handles c.slots msg r
      → Requeued (requeue_message c msg)
  unfolding requeue_message requeue_unfulfilled
  Fulfilled-Requeued r e (served before rx after split none_open opened taken left_is held keeps) =
      handed_over before rx after r.2 split none_open opened held keeps
        (rw (tried c msg none after r.2 r e taken left_is refl) refl)
  Fulfilled-Requeued r e (nobody none_open back left_is keeps) =
      queued (record c { waiting_receivers_handles = []; slots = r.2 })
        (record { none_open = none_open; slots = r.2; looks = keeps; state = refl })
        (rw (tried c msg (some msg) [] r.2 r e back left_is refl) refl)

  -- A message that is put back goes to the receiver that has waited longest, if any waits, and else
  -- into the mailbox, whose capacity does not count here.
  pub requeue_message-Requeued : Requeued (requeue_message c msg)
  requeue_message-Requeued =
      Fulfilled-Requeued _ refl (fulfill-Fulfilled D c.waiting_receivers_handles c.slots msg)

module _ {M : Type 0} {D : Deps M} (c : Chan D) (rx : ℕ) where
  open D use {oneshot}

  -- The channel with the slot of the receiver that is given up.
  abbrev pub given_up : Chan D
  given_up = set_slot c rx (cancel oneshot (c.slots rx)).1

  cancel-message :
      (msg : MessageToOne M)
      → oneshot.look (c.slots rx) ≡ holding (new_message msg)
      → (cancel oneshot (c.slots rx)).0 ≡ some msg
  unfolding cancel
  cancel-message msg e = rw (oneshot.try_recv-received (c.slots rx), e) refl

  -- A waiting receiver that is dropped with a message that it was handed, and has not been polled
  -- since, gives that message back: to the next one that waits, or else to the mailbox.
  pub drop_waiting-Requeued :
      (msg : MessageToOne M)
      → oneshot.look (c.slots rx) ≡ holding (new_message msg)
      → Requeued given_up msg (drop_waiting rx c)
  unfolding drop_waiting requeued
  drop_waiting-Requeued msg e = rw (cancel-message msg e) (requeue_message-Requeued given_up msg)
