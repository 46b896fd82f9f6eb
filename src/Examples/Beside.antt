-- ===== src/Examples/Beside.antt =====
-- The theorems on `select` and `join`, applied to the actor that adds up and a future that counts down.
use xtra.Prelude.{ℕ, zero, suc, ◌≡◌, ◌≢◌, refl, true, false, List, []}
use xtra.Std.{Poll, ready, pending, left}
use xtra.Recv
use xtra.Select.{
  UserFuture, Select, Join, select, select_round, selecting, returned, join, join_round,
}
use xtra.Dispatch.{Ended}
use xtra.Select.Places.{Stands, ended_now}
use xtra.Select.Safety.{Selects, Selects-Stands}
use xtra.Select.Safety
use xtra.Select.Joins.{Joins, JoinStands, ended_in_join, Joins-JoinStands}
use xtra.Select.Returns.{IsPrompt, select-returns}
use xtra.Examples.{deps, connected, busy}
use xtra.Examples.Actors.{adder, adds, mailbox}

-- It is ready once it has come down to 0.
abbrev down : ℕ → Poll ℕ × ℕ
down zero = (ready 5, zero)
down (suc n) = (pending, n)

abbrev countdown : UserFuture ℕ
countdown = record { State = ℕ; poll = λ n w. down n }

-- A `select` that polls the future first, which is pending, and takes a message of the busy channel, and
-- then handles that message.
abbrev at_start : Select adder countdown
at_start = (select adder countdown mailbox 9 1 1 connected).0

abbrev taken_one : Select adder countdown
taken_one = (select_round adder countdown mailbox 9 true at_start 4 busy).0

abbrev handled_one : Select adder countdown
handled_one = (select_round adder countdown mailbox 9 false taken_one 4 connected).0

abbrev handled : List (Ended adder)
handled = ended_now adder countdown taken_one 4 (ended_now adder countdown at_start 4 [])

two_rounds : Selects deps adder countdown mailbox 9 1 1 handled handled_one
two_rounds =
    Safety.goes_round false 4 connected (Safety.goes_round true 4 busy (Safety.begins connected))

Selects-Stands_example : Stands adder countdown 1 1 handled handled_one
Selects-Stands_example = Selects-Stands deps adder countdown mailbox 9 1 1 two_rounds

abbrev join_start : Join adder countdown
join_start = (join adder countdown mailbox 9 1 1 connected).0

abbrev join_taken : Join adder countdown
join_taken = (join_round adder countdown mailbox 9 true join_start 4 busy).0

one_round :
    Joins deps adder countdown mailbox 9 1 1
      (ended_in_join adder countdown join_start 4 [])
      join_taken
one_round = Joins.goes_round true 4 busy (Joins.begins connected)

Joins-JoinStands_example :
    JoinStands deps adder countdown mailbox 9 1 1
      (ended_in_join adder countdown join_start 4 [])
      join_taken
Joins-JoinStands_example = Joins-JoinStands deps adder countdown mailbox 9 1 1 one_round

prompt : IsPrompt adder
prompt act m ctx cx = (adds act m ctx, refl)

live : Recv.new mailbox.inner 0 ≢ Recv.done
live e = cc

select-returns_example :
    (a : ℕ) × ((select_round adder countdown mailbox 9 false
        (select_round adder countdown mailbox 9 true
          (selecting 1 zero (Recv.new mailbox.inner 0))
          4
          busy).0
        4
        connected).0
      ≡ returned a (left 5))
select-returns_example =
    select-returns adder countdown mailbox 9 1 zero (Recv.new mailbox.inner 0) 5 false 4 4 busy
      connected prompt live refl
