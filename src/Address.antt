-- ===== src/Address.antt =====
-- xtra/src/address.rs: addresses, which are pointers to a channel that count as senders.
pub mod Order
pub mod Join
use xtra.Prelude.{
  ℕ, compare, Ordering, Bool, true, false, ◌&&◌, Option, none, some, List, [], ◌∷◌, if◌then◌else◌,
  ◌==◌,
}
use xtra.Std.{Poll, ready, pending, Waker}
use xtra.Chan.State.{Deps, Chan}
use xtra.Chan.Methods
use xtra.Chan.Methods.{disconnect_listener}
use xtra.Ptr
use xtra.Ptr.{Ptr, RefCounter, is_strong, inner_ptr, to_tx_weak, try_to_tx_strong, to_tx_either}

pub record Address : Type 0 where
  pub ptr : Ptr

-- `bool == bool`, `Ord for bool` and `bool as u8`
abbrev pub eq_bool : Bool → Bool → Bool
eq_bool true b = b
eq_bool false true = false
eq_bool false false = true

abbrev pub as_u8 : Bool → ℕ
as_u8 true = 1
as_u8 false = 0

abbrev pub cmp_bool : Bool → Bool → Ordering
cmp_bool a b = compare (as_u8 a) (as_u8 b)

unfoldable pub same_actor : Address → Address → Bool
same_actor a b = inner_ptr a.ptr == inner_ptr b.ptr

-- `PartialEq`
unfoldable pub eq : Address → Address → Bool
unfolding same_actor
eq a b = same_actor a b && eq_bool (is_strong a.ptr) (is_strong b.ptr)

-- What `PartialOrd` makes of the order of the pointers.
then_strength : Address → Address → Ordering → Ordering
then_strength a b Ordering.lt = Ordering.lt
then_strength a b Ordering.eq = cmp_bool (is_strong a.ptr) (is_strong b.ptr)
then_strength a b Ordering.gt = Ordering.gt

unfoldable pub partial_cmp : Address → Address → Option Ordering
unfolding then_strength
partial_cmp a b = some (then_strength a b (compare (inner_ptr a.ptr) (inner_ptr b.ptr)))

-- `Ord`
unfoldable pub cmp : Address → Address → Ordering
cmp a b = compare (inner_ptr a.ptr) (inner_ptr b.ptr)

-- What `Hash` writes to the hasher.
unfoldable pub hash : Address → List ℕ
hash a = inner_ptr a.ptr ∷ as_u8 (is_strong a.ptr) ∷ []

-- `WeakAddress::downgrade`
unfoldable pub downgrade : Address → Address
downgrade a = record { ptr = to_tx_weak a.ptr }

module _ {M : Type 0} {D : Deps M} where
  unfoldable pub try_upgrade : Address → Chan D → Option Address × Chan D
  try_upgrade a c =
      let (ptr, c') = try_to_tx_strong a.ptr c in
      (elim ptr [ none ↦ none | some p ↦ some (record { ptr = p }) ], c')

  unfoldable pub as_either : Address → Chan D → Option Address × Chan D
  as_either a c =
      let (ptr, c') = to_tx_either a.ptr c in
      (elim ptr [ none ↦ none | some p ↦ some (record { ptr = p }) ], c')

  unfoldable pub is_connected : Address → Chan D → Bool
  is_connected a c = Methods.is_connected c

  unfoldable pub len : Address → Chan D → ℕ
  len a c = Methods.len c

  unfoldable pub capacity : Address → Chan D → Option ℕ
  capacity a c = Methods.capacity c

  unfoldable pub is_empty : Address → Chan D → Bool
  unfolding len
  is_empty a c = len a c == 0

  unfoldable pub clone : Address → Chan D → Address × Chan D
  clone a c = let (p, c') = Ptr.clone a.ptr c in (record { ptr = p }, c')

  unfoldable pub drop : Address → Chan D → Chan D
  drop a c = Ptr.drop a.ptr c

-- The number of the listener, if it is not done.
pub record ActorJoinHandle : Type 0 where
  pub listener : Option ℕ

-- A poll of the listener, by which listeners are notified; one that is done is forgotten.
poll_listener : (ℕ → Bool) → Option ℕ → Poll (Unit {0}) × Option ℕ
poll_listener notified none = (ready tt, none)
poll_listener notified (some listener) =
    if notified listener then (ready tt, none) else (pending, some listener)

module _ {M : Type 0} {D : Deps M} where
  unfoldable pub join : Address → Chan D → ActorJoinHandle × Chan D
  join a c = let (listener, c') = disconnect_listener c in (record { listener = listener }, c')

  -- `Future for ActorJoinHandle`
  unfoldable pub poll : ActorJoinHandle → Chan D → Poll (Unit {0}) × ActorJoinHandle
  unfolding poll_listener
  poll h c =
      let (result, left) = poll_listener (D.events.notified c.on_shutdown) h.listener in
      (result, record { listener = left })

  -- `scoped` and `Future for ScopedTask` of xtra/src/scoped_task.rs. What the task answers when it is
  -- polled is `fut`.
  unfoldable pub poll_scoped :
      {R : Type 0} → ActorJoinHandle → Chan D → Poll R → Poll (Option R) × ActorJoinHandle
  unfolding poll
  poll_scoped h c fut =
      let (joined, h') = poll h c in
      elim joined [
        | ready u ↦ (ready none, h')
        | pending ↦ elim fut [ ready v ↦ (ready (some v), h') | pending ↦ (pending, h') ]
      ]
