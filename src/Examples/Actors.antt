-- ===== src/Examples/Actors.antt =====
-- The theorems on the handling of messages, applied to an actor that adds up what it is sent and stops
-- itself at 0.
use xtra.Prelude.{ℕ, ◌+◌, ◌≡◌, refl, Bool, true, false, some, [], ◌∷◌, ◌++◌, if◌then◌else◌, ◌==◌}
use xtra.Std.{Poll, ready, pending, continue, break, ok}
use xtra.Chan.State.{to_one_actor}
use xtra.Ptr.{rx}
use xtra.Mailbox.{Mailbox, Context}
use xtra.Dispatch.{Finished, Handler, flow_of, dispatch, poll, DispatchFuture, running}
use xtra.Run.{Actor, yield_once, run_loop, run}
use xtra.Run.Order.{GoesOn, run-stops}
use xtra.Run.Task.{Task, begin, run_round, takes, answers}
use xtra.Run.Rounds.{Follows, Rounds-Follows, begins, goes_round}
use xtra.Dispatch.Handling.{Computes, handling}
use xtra.Select.Places.{Pends, unpolled, polled_again}
use xtra.Examples.{deps, message, busy, idle}

abbrev pub mailbox : Mailbox
mailbox = record { inner = record { inner = 0; ref_counter = rx }; broadcast_mailbox = 0 }

-- The sum goes up, and the old one is returned.
abbrev pub adds : ℕ → ℕ → Context → Finished ℕ ℕ
adds sum m ctx = record {
  actor = sum + m;
  value = sum;
  ctx = record ctx { running = if m == 0 then false else ctx.running };
}

abbrev pub adder : Handler ℕ ℕ ℕ
adder = record { Running = Finished ℕ ℕ; handle = adds; poll = λ fin w. (ready fin, fin) }

abbrev fresh : DispatchFuture adder
fresh = dispatch adder (to_one_actor (message 7 0)) 1 mailbox

abbrev sums : Actor ℕ ℕ ℕ ℕ
sums = record { started = λ a m. ok a; stopped = λ a. a; handle = adds }

goes_on : (yield_once sums mailbox 1 (to_one_actor (message 7 0))).flow ≡ continue
unfolding yield_once flow_of
goes_on = refl

-- The same without the unfolding of `yield_once`, for the path below.
eight : (yield_once sums mailbox 1 (to_one_actor (message 7 0))).actor ≡ 8
unfolding yield_once
eight = refl

ends :
    (yield_once sums mailbox
      (yield_once sums mailbox 1 (to_one_actor (message 7 0))).actor
      (to_one_actor (message 0 0))).flow
    ≡ break
unfolding yield_once flow_of
ends = refl

run-stops_example :
    (run_loop sums mailbox 1
        (to_one_actor (message 7 0) ∷ to_one_actor (message 0 0) ∷ to_one_actor (message 5 0) ∷ [])
      ≡ (8, true, (0, 1) ∷ (0, 8) ∷ [], to_one_actor (message 5 0) ∷ []))
    × (run sums mailbox 1 (
          to_one_actor (message 7 0) ∷ to_one_actor (message 0 0) ∷ to_one_actor (message 5 0) ∷ [])
        ≡ some 8)
unfolding yield_once
run-stops_example =
    run-stops sums mailbox 1 (to_one_actor (message 0 0)) (to_one_actor (message 5 0) ∷ []) refl
      (GoesOn.next goes_on GoesOn.here) ends

-- The same actor with a handler that is pending at its first poll.
abbrev slow_poll : Bool × Finished ℕ ℕ → Poll (Finished ℕ ℕ) × (Bool × Finished ℕ ℕ)
slow_poll (false, fin) = (pending, (true, fin))
slow_poll (true, fin) = (ready fin, (true, fin))

abbrev slow_adder : Handler ℕ ℕ ℕ
slow_adder = record {
  Running = Bool × Finished ℕ ℕ;
  handle = λ sum m ctx. (false, adds sum m ctx);
  poll = λ h w. slow_poll h;
}

slow_keeps : {h g : Bool × Finished ℕ ℕ} → Pends (handling slow_adder) h g → g.1 ≡ h.1
slow_keeps unpolled = refl
slow_keeps (polled_again {f = (false, fin)} cx k e) = slow_keeps k
slow_keeps (polled_again {f = (true, fin)} cx k e) = cc

slow_adder-Computes : Computes slow_adder adds
slow_adder-Computes sum m ctx (false, g) cx fin k e = cc
slow_adder-Computes sum m ctx (true, g) cx fin k e = cc (slow_keeps k, e)

-- A message is taken from the channel `busy`, and its handler polled once; meanwhile the channel changes.
abbrev at_first : Task slow_adder
at_first = (begin slow_adder mailbox 1 idle).0

abbrev at_second : Task slow_adder
at_second = (run_round slow_adder mailbox at_first 4 busy).0

abbrev at_third : Task slow_adder
at_third = (run_round slow_adder mailbox at_second 4 idle).0

Rounds-Follows_example :
    Follows slow_adder sums mailbox 1 1 at_third
      (([] ++ takes slow_adder at_first 4 busy) ++ takes slow_adder at_second 4 idle)
      (([] ++ answers slow_adder at_first 4) ++ answers slow_adder at_second 4)
Rounds-Follows_example =
    Rounds-Follows deps slow_adder sums mailbox 1 1 refl slow_adder-Computes
      (goes_round 4 idle (goes_round 4 busy (begins idle)))
