-- ===== src/MessageChannel/Object.antt =====
-- `MessageChannelTrait` of xtra/src/message_channel.rs, with its one implementation, that of an address.
-- An object of the trait is an address whose actor is not named: of the actor's messages only those of
-- type `N` can be sent, and `wrap` says which message of the actor such a one is.
use xtra.Prelude.{ℕ, Bool, Option, none, some, List, [], ◌∷◌}
use xtra.Envelope.{MessageToOne}
use xtra.Chan.State.{Deps, Chan}
use xtra.Ptr
use xtra.Ptr.{inner_ptr, to_tx_weak, to_tx_either}
use xtra.Address
use xtra.Address.{Address, ActorJoinHandle, as_u8}
use xtra.Send.{SendFuture, sending_named}

-- `Box<dyn MessageChannelTrait>`
pub record DynChannel : Type 0 where
  pub address : Address

abbrev pub boxed : Address → DynChannel
boxed a = record { address = a }

unfoldable pub to_inner_ptr : DynChannel → ℕ
to_inner_ptr o = inner_ptr o.address.ptr

unfoldable pub is_strong : DynChannel → Bool
is_strong o = Ptr.is_strong o.address.ptr

unfoldable pub to_weak : DynChannel → DynChannel
to_weak o = boxed (record { ptr = to_tx_weak o.address.ptr })

-- What is written to the hasher, and `finish`, whose value is not used.
unfoldable pub hash : DynChannel → List ℕ
hash o = inner_ptr o.address.ptr ∷ as_u8 (Ptr.is_strong o.address.ptr) ∷ []

module _ {M : Type 0} {D : Deps M} where
  unfoldable pub is_connected : DynChannel → Chan D → Bool
  is_connected o c = Address.is_connected o.address c

  unfoldable pub len : DynChannel → Chan D → ℕ
  len o c = Address.len o.address c

  unfoldable pub capacity : DynChannel → Chan D → Option ℕ
  capacity o c = Address.capacity o.address c

  unfoldable pub clone_channel : DynChannel → Chan D → DynChannel × Chan D
  clone_channel o c = let (a', c') = Address.clone o.address c in (boxed a', c')

  unfoldable pub join : DynChannel → Chan D → ActorJoinHandle × Chan D
  join o c = Address.join o.address c

  unfoldable pub sender_count : DynChannel → Chan D → ℕ
  sender_count o c = Ptr.sender_count o.address.ptr c

  unfoldable pub receiver_count : DynChannel → Chan D → ℕ
  receiver_count o c = Ptr.receiver_count o.address.ptr c

  unfoldable pub to_either : DynChannel → Chan D → Option DynChannel × Chan D
  to_either o c =
      let (ptr, c') = to_tx_either o.address.ptr c in
      (elim ptr [ none ↦ none | some p ↦ some (boxed (record { ptr = p })) ], c')

  -- The box is dropped, and the address in it.
  unfoldable pub drop : DynChannel → Chan D → Chan D
  drop o c = Address.drop o.address c

module _ {M N : Type 0} {D : Deps M} (wrap : N → M) where
  -- `tx` is the fresh one-shot channel for the answer.
  unfoldable pub send : DynChannel → N → ℕ → Chan D → SendFuture (MessageToOne M) ℕ × Chan D
  send o message tx c =
      let (sender, c') = Ptr.clone o.address.ptr c in (sending_named (wrap message) sender tx, c')
