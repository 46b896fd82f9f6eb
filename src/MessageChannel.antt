-- ===== src/MessageChannel.antt =====
-- xtra/src/message_channel.rs: a channel to any actor that can handle one type of message. It calls what
-- it holds through the trait, which is in Object.
pub mod Object
pub mod Laws
pub mod Refused
use xtra.Prelude.{ℕ, Bool, ◌&&◌, Option, none, some, List, ◌==◌}
use xtra.Envelope.{MessageToOne}
use xtra.Chan.State.{Deps, Chan}
use xtra.Address.{Address, ActorJoinHandle, eq_bool}
use xtra.Send.{SendFuture}
use Object
use Object.{DynChannel, boxed}

-- The types that `Rc` stands for: `Strong`, `Weak` and `Either`.
pub data Rc : Type 0 where
  strong : Rc
  weak : Rc
  either : Rc

pub record MessageChannel (rc : Rc) : Type 0 where
  pub inner : DynChannel

-- `MessageChannel::new`, and `From<Address>`
unfoldable pub new : {rc : Rc} → Address → MessageChannel rc
new address = record { inner = boxed address }

unfoldable pub same_actor : {rc rc2 : Rc} → MessageChannel rc → MessageChannel rc2 → Bool
same_actor a b = Object.to_inner_ptr a.inner == Object.to_inner_ptr b.inner

-- `PartialEq`
unfoldable pub eq : {rc : Rc} → MessageChannel rc → MessageChannel rc → Bool
unfolding same_actor
eq a b = same_actor a b && eq_bool (Object.is_strong a.inner) (Object.is_strong b.inner)

-- What `Hash` writes to the hasher.
unfoldable pub hash : {rc : Rc} → MessageChannel rc → List ℕ
hash m = Object.hash m.inner

-- `downgrade` of a strong channel
unfoldable pub downgrade_strong : MessageChannel strong → MessageChannel weak
downgrade_strong m = record { inner = Object.to_weak m.inner }

-- `downgrade` of a channel with either count
unfoldable pub downgrade_either : MessageChannel either → MessageChannel weak
downgrade_either m = record { inner = Object.to_weak m.inner }

module _ {M : Type 0} {D : Deps M} {rc : Rc} where
  unfoldable pub is_connected : MessageChannel rc → Chan D → Bool
  is_connected m c = Object.is_connected m.inner c

  unfoldable pub len : MessageChannel rc → Chan D → ℕ
  len m c = Object.len m.inner c

  unfoldable pub capacity : MessageChannel rc → Chan D → Option ℕ
  capacity m c = Object.capacity m.inner c

  unfoldable pub is_empty : MessageChannel rc → Chan D → Bool
  unfolding len
  is_empty m c = len m c == 0

  unfoldable pub join : MessageChannel rc → Chan D → ActorJoinHandle × Chan D
  join m c = Object.join m.inner c

  unfoldable pub clone : MessageChannel rc → Chan D → MessageChannel rc × Chan D
  clone m c = let (o, c') = Object.clone_channel m.inner c in (record { inner = o }, c')

  unfoldable pub as_either : MessageChannel rc → Chan D → Option (MessageChannel either) × Chan D
  as_either m c =
      let (o, c') = Object.to_either m.inner c in
      (elim o [ none ↦ none | some x ↦ some (record { inner = x }) ], c')

  unfoldable pub drop : MessageChannel rc → Chan D → Chan D
  drop m c = Object.drop m.inner c

module _ {M N : Type 0} {D : Deps M} {rc : Rc} (wrap : N → M) where
  unfoldable pub send : MessageChannel rc → N → ℕ → Chan D → SendFuture (MessageToOne M) ℕ × Chan D
  send m message tx c = Object.send wrap m.inner message tx c
