-- ===== src/Run.antt =====
-- `run` and `yield_once` of xtra/src/lib.rs: the loop of an actor. The messages that its mailbox gives
-- are a list here, and each handler runs to its end, so a message is one step of the loop.
pub mod Order
pub mod Task
pub mod Rounds
use xtra.Prelude.{ℕ, Bool, true, false, Option, none, some, List, [], ◌∷◌, ◌++◌}
use xtra.Std.{ControlFlow, continue, break, Result, ok, err}
use xtra.Envelope.{concrete}
use xtra.Envelope
use xtra.Chan.State.{ActorMessage, to_one_actor, to_all_actors, shutdown}
use xtra.Mailbox.{Mailbox, Context}
use xtra.Dispatch.{Finished, flow_of, context}

-- The actor's own code: `Actor::started` and `stopped`, and its handler. `started` gives the actor, or
-- what it stops with.
pub record Actor (M A R Stop : Type 0) : Type 0 where
  pub started : A → Mailbox → Result A Stop
  pub stopped : A → Stop
  pub handle : A → M → Context → Finished A R

-- What a message leaves: the actor, the flow of control and the answers sent.
pub record Yielded (A R : Type 0) : Type 0 where
  pub actor : A
  pub flow : ControlFlow
  pub answers : List (ℕ × R)

module _ {M A R Stop : Type 0} (H : Actor M A R Stop) (mailbox : Mailbox) where
  -- `yield_once`, for the message that `next` gives
  unfoldable pub yield_once : A → ActorMessage M → Yielded A R
  yield_once act (to_one_actor e) =
      let fin = H.handle act e.message (context mailbox) in
      record {
        actor = fin.actor;
        flow = flow_of fin.ctx;
        answers = (e.result_sender, fin.value) ∷ [];
      }
  yield_once act (to_all_actors (concrete e)) =
      let fin = H.handle act e.message (context mailbox) in
      record { actor = fin.actor; flow = flow_of fin.ctx; answers = [] }
  yield_once act (to_all_actors Envelope.shutdown) = record {
    actor = act;
    flow = break;
    answers = [];
  }
  yield_once act shutdown = record { actor = act; flow = break; answers = [] }

  -- One turn of the `while` loop, by the flow of a message: what the turns after it come to, or the end
  -- with the messages that are left.
  unfoldable pub turn :
      ControlFlow
      → Yielded A R
      → List (ActorMessage M)
      → A × Bool × List (ℕ × R) × List (ActorMessage M)
      → A × Bool × List (ℕ × R) × List (ActorMessage M)
  turn continue y msgs rest = (rest.0, rest.1, y.answers ++ rest.2, rest.3)
  turn break y msgs rest = (y.actor, true, y.answers, msgs)

  -- The `while` loop: the actor at its end, whether it has ended, the answers in order, and the messages
  -- that it did not take.
  unfoldable pub run_loop :
      A → List (ActorMessage M) → A × Bool × List (ℕ × R) × List (ActorMessage M)
  unfolding turn
  run_loop act [] = (act, false, [], [])
  run_loop act (msg ∷ msgs) =
      let y = yield_once act msg in turn y.flow y msgs (run_loop y.actor msgs)

  -- What `run` returns once the loop is over.
  unfoldable pub stop_after : A × Bool × List (ℕ × R) × List (ActorMessage M) → Option Stop
  stop_after (act, true, answers, left) = some (H.stopped act)
  stop_after (act, false, answers, left) = none

  unfoldable pub run_started : Result A Stop → List (ActorMessage M) → Option Stop
  unfolding stop_after
  run_started (ok act) msgs = stop_after (run_loop act msgs)
  run_started (err stop) msgs = some stop

  -- What `run` returns, if it has come to its end with these messages.
  unfoldable pub run : A → List (ActorMessage M) → Option Stop
  unfolding run_started
  run act msgs = run_started (H.started act mailbox) msgs
