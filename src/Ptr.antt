-- ===== src/Ptr.antt =====
-- xtra/src/chan/ptr.rs: pointers to a channel, each with a policy of what it counts as. The policies
-- `TxStrong`, `TxWeak`, `TxEither` and `Rx` are one type here, as a pointer of any of them can stand
-- beside the others.
pub mod Counts
pub mod Counted
pub mod Upgrade
pub mod Life
pub mod Undo
use xtra.Prelude.{
  ℕ, suc, ◌≡◌, Bool, true, false, Option, none, some, List, [], ◌∷◌, if◌then◌else◌, ◌==◌,
}
use xtra.Std.{wrapping_inc}
use xtra.Chan.State.{Deps, Chan}
use xtra.Chan.Methods
use xtra.Chan.Methods.{
  on_sender_created, on_sender_dropped, on_receiver_created, on_receiver_dropped,
}

pub data TxEither : Type 0 where
  strong : TxEither
  weak : TxEither

pub data RefCounter : Type 0 where
  tx_strong : RefCounter
  tx_weak : RefCounter
  tx_either : TxEither → RefCounter
  rx : RefCounter

-- `private::RefCounter::is_strong`
abbrev pub counter_is_strong : RefCounter → Bool
counter_is_strong tx_strong = true
counter_is_strong tx_weak = false
counter_is_strong (tx_either strong) = true
counter_is_strong (tx_either weak) = false
counter_is_strong rx = true

-- `From<TxStrong>` and `From<TxWeak>` for `TxEither`; a `TxEither` stays as it is, and an `Rx` cannot
-- be converted.
abbrev pub into_either : RefCounter → Option RefCounter
into_either tx_strong = some (tx_either strong)
into_either tx_weak = some (tx_either weak)
into_either (tx_either e) = some (tx_either e)
into_either rx = none

module _ {M : Type 0} {D : Deps M} where
  unfoldable pub make_new : RefCounter → Chan D → RefCounter × Chan D
  make_new tx_strong c = (tx_strong, on_sender_created c)
  make_new tx_weak c = (tx_weak, c)
  make_new (tx_either strong) c = (tx_either strong, on_sender_created c)
  make_new (tx_either weak) c = (tx_either weak, c)
  make_new rx c = (rx, on_receiver_created c)

  unfoldable pub destroy : RefCounter → Chan D → Chan D
  destroy tx_strong c = on_sender_dropped c
  destroy tx_weak c = c
  destroy (tx_either strong) c = on_sender_dropped c
  destroy (tx_either weak) c = c
  destroy rx c = on_receiver_dropped c

-- What one round of the loop in `TxStrong::try_new` leads to.
pub data Attempt : Type 0 where
  trying : ℕ → Attempt
  refused : Attempt
  upgraded : Attempt

-- One round: the count that was seen last, whether the exchange fails for no reason, as
-- `compare_exchange_weak` may, and the count now. The second component is the count afterwards.
unfoldable pub attempt : ℕ → Bool → ℕ → Attempt × ℕ
attempt n spurious count =
    if n == 0
    then (refused, count)
    else if spurious
    then (trying count, count)
    else if n == count
    then (upgraded, wrapping_inc n)
    else (trying count, count)

-- The rounds of the loop, each with whether its exchange fails for no reason and with the count that
-- the others have left when it comes. `none`: the loop is still running.
unfoldable pub try_new_loop : ℕ → List (Bool × ℕ) → Option (Bool × ℕ)
unfolding attempt
try_new_loop n [] = none
try_new_loop n ((spurious, count) ∷ rounds) =
    let next = λ (m : ℕ). try_new_loop m rounds in
    let (result, after) = attempt n spurious count in
    elim result [
      | trying m ↦ next m
      | refused ↦ some (false, after)
      | upgraded ↦ some (true, after)
    ]

module _ {M : Type 0} {D : Deps M} where
  -- `TxStrong::try_new` with nobody in between: the loop in one step.
  unfoldable pub try_new : Chan D → Option RefCounter × Chan D
  try_new c =
      if c.sender_count == 0
      then (none, c)
      else (some tx_strong, record c { sender_count = wrapping_inc c.sender_count })

-- A channel and a pointer to it: the `Arc` is told apart by its number.
pub record Ptr : Type 0 where
  pub inner : ℕ
  pub ref_counter : RefCounter

abbrev pub is_strong : Ptr → Bool
is_strong p = counter_is_strong p.ref_counter

abbrev pub inner_ptr : Ptr → ℕ
inner_ptr p = p.inner

abbrev pub to_tx_weak : Ptr → Ptr
to_tx_weak p = record { inner = p.inner; ref_counter = tx_weak }

module _ {M : Type 0} {D : Deps M} where
  -- `Ptr::<A, TxStrong>::new` and `Ptr::<A, Rx>::new`
  unfoldable pub new_tx : ℕ → Chan D → Ptr × Chan D
  unfolding make_new
  new_tx i c =
      let (policy, c') = make_new tx_strong c in (record { inner = i; ref_counter = policy }, c')

  unfoldable pub new_rx : ℕ → Chan D → Ptr × Chan D
  unfolding make_new
  new_rx i c = let (policy, c') = make_new rx c in (record { inner = i; ref_counter = policy }, c')

  unfoldable pub try_to_tx_strong : Ptr → Chan D → Option Ptr × Chan D
  unfolding try_new
  try_to_tx_strong p c =
      let (counter, c') = try_new c in
      (
        elim counter [ none ↦ none | some r ↦ some (record { inner = p.inner; ref_counter = r }) ],
        c',
      )

  -- The new counter is of the pointer's own policy, and then converted.
  unfoldable pub to_tx_either : Ptr → Chan D → Option Ptr × Chan D
  unfolding make_new
  to_tx_either p c =
      let (counter, c') = make_new p.ref_counter c in
      elim (into_either counter) [
        | none ↦ (none, c)
        | some r ↦ (some (record { inner = p.inner; ref_counter = r }), c')
      ]

  -- `Clone` and `Drop`
  unfoldable pub clone : Ptr → Chan D → Ptr × Chan D
  unfolding make_new
  clone p c =
      let (counter, c') = make_new p.ref_counter c in
      (record { inner = p.inner; ref_counter = counter }, c')

  unfoldable pub drop : Ptr → Chan D → Chan D
  unfolding destroy
  drop p c = destroy p.ref_counter c

  unfoldable pub sender_count : Ptr → Chan D → ℕ
  sender_count p c = c.sender_count

  unfoldable pub receiver_count : Ptr → Chan D → ℕ
  receiver_count p c = c.receiver_count

-- `chan::new`: the channel, numbered `i`, its first sender and its first receiver
unfoldable pub new : {M : Type 0} (D : Deps M) → ℕ → Option ℕ → (Ptr × Ptr) × Chan D
unfolding new_tx new_rx
new D i capacity =
    let (tx, c) = new_tx i (Methods.new D capacity) in
    let (receiver, c') = new_rx i c in ((tx, receiver), c')
