-- ===== src/Run/Order.antt =====
-- Which messages the loop of xtra/src/lib.rs handles.
use xtra.Prelude.{ℕ, ◌≡◌, refl, ap, ◌∙◌, true, some, List, [], ◌∷◌, ◌++◌, append_assoc}
use xtra.Std.{ControlFlow, continue, break, ok}
use xtra.Chan.State.{ActorMessage}
use xtra.Mailbox.{Mailbox}
use xtra.Run.{Actor, yield_once, turn, run_loop, stop_after, run_started, run}

module _ {M A R Stop : Type 0} (H : Actor M A R Stop) (mailbox : Mailbox) where
  -- The first actor handles the messages one after another, goes on after each of them, and is then the
  -- second, with these answers sent.
  pub data GoesOn : A → List (ActorMessage M) → A → List (ℕ × R) → Type 0 where
    here : {a : A} → GoesOn a [] a []
    next :
        {a b : A} {msg : ActorMessage M} {msgs : List (ActorMessage M)} {answers : List (ℕ × R)}
        → (yield_once H mailbox a msg).flow ≡ continue
        → GoesOn (yield_once H mailbox a msg).actor msgs b answers
        → GoesOn a (msg ∷ msgs) b ((yield_once H mailbox a msg).answers ++ answers)

  turned :
      (a : A) (msg : ActorMessage M) (msgs : List (ActorMessage M)) (flow : ControlFlow)
      → (yield_once H mailbox a msg).flow ≡ flow
      → run_loop H mailbox a (msg ∷ msgs)
        ≡ turn H mailbox flow
            (yield_once H mailbox a msg)
            msgs
            (run_loop H mailbox (yield_once H mailbox a msg).actor msgs)
  unfolding run_loop
  turned a msg msgs flow e =
      ap
        (λ f.
          turn H mailbox f (yield_once H mailbox a msg) msgs
            (run_loop H mailbox (yield_once H mailbox a msg).actor msgs))
        e

  loop-stops :
      {a b : A} {msgs : List (ActorMessage M)} {answers : List (ℕ × R)} (msg : ActorMessage M)
      (left : List (ActorMessage M))
      → GoesOn a msgs b answers
      → (yield_once H mailbox b msg).flow ≡ break
      → run_loop H mailbox a (msgs ++ msg ∷ left) ≡ (
        (yield_once H mailbox b msg).actor,
        true,
        answers ++ (yield_once H mailbox b msg).answers,
        left,
      )
  unfolding turn
  loop-stops msg left here e = turned _ msg left break e
  loop-stops msg left (next {a = x} {msg = m} {msgs = ms} {answers = old} goes path) e =
      turned x m (ms ++ msg ∷ left) continue goes
      ∙ rw (loop-stops msg left path e, append_assoc) refl

  -- An actor that has started and goes on after each of some messages stops after the first one that
  -- ends its loop: its answers are those of these messages in order, no message after that is taken,
  -- and `run` gives what the actor then stops with.
  pub run-stops :
      (a : A) {b c : A} {msgs : List (ActorMessage M)} {answers : List (ℕ × R)}
      (msg : ActorMessage M) (left : List (ActorMessage M))
      → H.started a mailbox ≡ ok b
      → GoesOn b msgs c answers
      → (yield_once H mailbox c msg).flow ≡ break
      → (run_loop H mailbox b (msgs ++ msg ∷ left) ≡ (
        (yield_once H mailbox c msg).actor,
        true,
        answers ++ (yield_once H mailbox c msg).answers,
        left,
      ))
        × (run H mailbox a (msgs ++ msg ∷ left)
            ≡ some (H.stopped (yield_once H mailbox c msg).actor))
  unfolding run run_started stop_after
  run-stops a msg left s path e = let l = loop-stops msg left path e in (l, rw (s, l) refl)
