-- ===== src/Ptr/Counts.antt =====
-- The counts of a channel against the pointers that exist, whose policies xtra/src/chan/ptr.rs counts.
use xtra.Prelude.{
  ℕ, suc, zero, ◌+◌, ◌≤◌, ◌<◌, ◌≡◌, refl, false, some, List, [], ◌∷◌, arith, get_elem?, sum_of,
  remove_at, ◌==◌,
}
use xtra.Std.{usize_mod, wrapping_inc, wrapping_dec}
use xtra.Chan.State.{Deps, Chan}
use xtra.Chan.Methods.{
  on_sender_created, on_sender_dropped, on_receiver_created, on_receiver_dropped,
  shutdown_waiting_senders, shutdown_waiting_receivers,
}
use xtra.Ptr.{
  RefCounter, strong, weak, tx_strong, tx_weak, tx_either, rx, into_either, make_new, destroy,
  try_new,
}

-- 1 for a policy that counts as a sender, and for one that counts as a receiver.
abbrev pub as_sender : RefCounter → ℕ
as_sender tx_strong = 1
as_sender tx_weak = 0
as_sender (tx_either strong) = 1
as_sender (tx_either weak) = 0
as_sender rx = 0

abbrev pub as_receiver : RefCounter → ℕ
as_receiver tx_strong = 0
as_receiver tx_weak = 0
as_receiver (tx_either e) = 0
as_receiver rx = 1

pub sum_of-remove_at :
    (f : RefCounter → ℕ) (rs : List RefCounter) (i : ℕ) (r : RefCounter)
    → get_elem? rs i ≡ some r
    → sum_of f rs ≡ f r + sum_of f (remove_at rs i)
sum_of-remove_at f [] i r e = cc
sum_of-remove_at f (x ∷ rs) zero r e = cc
sum_of-remove_at f (x ∷ rs) (suc i) r e = omega (arith, sum_of-remove_at f rs i r e)

pub into_either-counts :
    (r e : RefCounter)
    → into_either r ≡ some e
    → (as_sender e ≡ as_sender r) × (as_receiver e ≡ as_receiver r)
into_either-counts tx_strong e h = (cc, cc)
into_either-counts tx_weak e h = (cc, cc)
into_either-counts (tx_either strong) e h = (cc, cc)
into_either-counts (tx_either weak) e h = (cc, cc)
into_either-counts rx e h = cc

pub as_at_most_1 : (r : RefCounter) → (as_sender r ≤ 1) × (as_receiver r ≤ 1)
as_at_most_1 tx_strong = (omega arith, omega arith)
as_at_most_1 tx_weak = (omega arith, omega arith)
as_at_most_1 (tx_either strong) = (omega arith, omega arith)
as_at_most_1 (tx_either weak) = (omega arith, omega arith)
as_at_most_1 rx = (omega arith, omega arith)

module _ {M : Type 0} {D : Deps M} where
  pub make_new-sender_count :
      (r : RefCounter) (c : Chan D)
      → suc c.sender_count < usize_mod
      → (make_new r c).1.sender_count ≡ as_sender r + c.sender_count
  unfolding make_new on_sender_created on_receiver_created
  make_new-sender_count tx_strong c small = omega arith
  make_new-sender_count tx_weak c small = omega arith
  make_new-sender_count (tx_either strong) c small = omega arith
  make_new-sender_count (tx_either weak) c small = omega arith
  make_new-sender_count rx c small = omega arith

  pub make_new-receiver_count :
      (r : RefCounter) (c : Chan D)
      → suc c.receiver_count < usize_mod
      → (make_new r c).1.receiver_count ≡ as_receiver r + c.receiver_count
  unfolding make_new on_sender_created on_receiver_created
  make_new-receiver_count tx_strong c small = omega arith
  make_new-receiver_count tx_weak c small = omega arith
  make_new-receiver_count (tx_either strong) c small = omega arith
  make_new-receiver_count (tx_either weak) c small = omega arith
  make_new-receiver_count rx c small = omega arith

  pub make_new-policy : (r : RefCounter) (c : Chan D) → (make_new r c).0 ≡ r
  unfolding make_new
  make_new-policy tx_strong c = refl
  make_new-policy tx_weak c = refl
  make_new-policy (tx_either strong) c = refl
  make_new-policy (tx_either weak) c = refl
  make_new-policy rx c = refl

  pub sender_dropped-counts :
      (c : Chan D)
      → ((on_sender_dropped c).sender_count ≡ wrapping_dec c.sender_count)
        × ((on_sender_dropped c).receiver_count ≡ c.receiver_count)
  unfolding on_sender_dropped shutdown_waiting_receivers
  sender_dropped-counts c = ground arith

  pub receiver_dropped-counts :
      (c : Chan D)
      → ((on_receiver_dropped c).sender_count ≡ c.sender_count)
        × ((on_receiver_dropped c).receiver_count ≡ wrapping_dec c.receiver_count)
  unfolding on_receiver_dropped shutdown_waiting_senders
  receiver_dropped-counts c = ground arith

  pub try_new-some :
      (c : Chan D) (r : RefCounter)
      → (try_new c).0 ≡ some r
      → (r ≡ tx_strong)
        × ((try_new c).1 ≡ record c { sender_count = wrapping_inc c.sender_count })
        × ((c.sender_count == 0) ≡ false)
  unfolding try_new
  try_new-some c r e = (ground arith, ground arith, ground arith)

  -- A counted pointer that is dropped was counted, so the count does not pass 0.
  pub destroy-counts :
      (r : RefCounter) (c : Chan D) (m n : ℕ)
      → c.sender_count ≡ as_sender r + m
      → c.receiver_count ≡ as_receiver r + n
      → c.sender_count < usize_mod
      → c.receiver_count < usize_mod
      → ((destroy r c).sender_count ≡ m) × ((destroy r c).receiver_count ≡ n)
  unfolding destroy
  destroy-counts tx_strong c m n s t ss ts =
      let (a, b) = sender_dropped-counts c in (omega arith, omega arith)
  destroy-counts tx_weak c m n s t ss ts = (omega arith, omega arith)
  destroy-counts (tx_either strong) c m n s t ss ts =
      let (a, b) = sender_dropped-counts c in (omega arith, omega arith)
  destroy-counts (tx_either weak) c m n s t ss ts = (omega arith, omega arith)
  destroy-counts rx c m n s t ss ts =
      let (a, b) = receiver_dropped-counts c in (omega arith, omega arith)
