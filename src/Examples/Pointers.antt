-- ===== src/Examples/Pointers.antt =====
-- The theorems on pointers and addresses, applied to concrete ones.
use xtra.Prelude.{◌≡◌, ◌≢◌, ◌↔◌, refl, true, false, some, [], ◌∷◌, arith, Ordering}
use xtra.Std.{ready}
use xtra.Chan.Methods.{
  is_connected, on_receiver_dropped, disconnect_listener, new_broadcast_mailbox,
  on_receiver_created, on_sender_created, new, on_sender_dropped, shutdown_waiting_receivers,
}
use xtra.Chan.Steps.{here}
use xtra.Ptr
use xtra.Ptr.{make_new, tx_strong, tx_weak, rx, is_strong, try_new_loop, destroy}
use xtra.Ptr.Upgrade.{Answers, try_new_loop-Answers}
use xtra.Ptr.Counted.{Held, PtrSteps, IsCounted, clones, drops, weakens}
use xtra.Ptr.Counted
use xtra.Ptr.Life.{created, created-PtrSteps-IsCounted, is_connected-lost}
use xtra.Address.{Address, same_actor, eq, hash, partial_cmp, cmp, join, poll}
use xtra.Address.Order.{eq_iff, cmp-partial_cmp}
use xtra.Address.Join.{join-on_receiver_dropped}
use xtra.Examples.{deps, connected}

-- The first sender is dropped, beside a weak address.
abbrev lonely : Held deps
lonely = record { chan = destroy tx_strong (created deps (some 1)).chan; live = tx_weak ∷ rx ∷ [] }

abbrev to_lonely : PtrSteps (created deps (some 1)) lonely
to_lonely = Counted.next (Counted.next Counted.here weakens) (drops 1 tx_strong refl)

created-PtrSteps-IsCounted_example : IsCounted 2 lonely
created-PtrSteps-IsCounted_example =
    created-PtrSteps-IsCounted deps (some 1) to_lonely (omega arith)

try_new_loop-Answers_example :
    Answers 2
      ((true, 1) ∷ (false, 3) ∷ (false, 3) ∷ [])
      (try_new_loop 2 ((true, 1) ∷ (false, 3) ∷ (false, 3) ∷ []))
try_new_loop-Answers_example = try_new_loop-Answers 2 ((true, 1) ∷ (false, 3) ∷ (false, 3) ∷ [])

abbrev strong_address : Address
strong_address = record { ptr = record { inner = 0; ref_counter = tx_strong } }

abbrev weak_address : Address
weak_address = record { ptr = record { inner = 0; ref_counter = tx_weak } }

lonely_lost : is_connected lonely.chan ≡ false
unfolding is_connected destroy on_sender_dropped shutdown_waiting_receivers Ptr.new Ptr.new_tx
    Ptr.new_rx make_new on_sender_created on_receiver_created new
lonely_lost = refl

-- Another weak address later.
abbrev lonelier : Held deps
lonelier = record { chan = lonely.chan; live = tx_weak ∷ tx_weak ∷ rx ∷ [] }

abbrev to_lonelier : PtrSteps lonely lonelier
to_lonelier = Counted.next Counted.here weakens

is_connected-lost_example : is_connected lonelier.chan ≡ false
is_connected-lost_example =
    is_connected-lost deps (some 1) to_lonely (omega arith) lonely_lost to_lonelier

eq_iff_example :
    ((eq strong_address weak_address ≡ true) ↔ (hash strong_address ≡ hash weak_address))
    × ((eq strong_address weak_address ≡ true)
        ↔ (partial_cmp strong_address weak_address ≡ some Ordering.eq))
eq_iff_example = eq_iff strong_address weak_address

cmp-partial_cmp_example :
    (some (cmp strong_address weak_address) ≢ partial_cmp strong_address weak_address) ↔ (
      (same_actor strong_address weak_address ≡ true)
      × (is_strong strong_address.ptr ≢ is_strong weak_address.ptr))
cmp-partial_cmp_example = cmp-partial_cmp strong_address weak_address

one_receiver : (join strong_address connected).1.receiver_count ≡ 1
unfolding join disconnect_listener new_broadcast_mailbox on_receiver_created on_sender_created new
one_receiver = refl

join-on_receiver_dropped_example :
    (poll
      (join strong_address connected).0
      (on_receiver_dropped (join strong_address connected).1)).0
    ≡ ready tt
join-on_receiver_dropped_example =
    join-on_receiver_dropped strong_address connected here one_receiver here
