-- ===== src/MessageChannel/Laws.antt =====
-- What the copies of a message channel in xtra/src/message_channel.rs are to the channel itself.
use xtra.Prelude.{suc, ◌<◌, ◌≤◌, ◌≡◌, ◌≢◌, ◌↔◌, refl, true, false, some, sym, arith}
use xtra.Std.{usize_mod}
use xtra.Chan.State.{Deps, Chan}
use xtra.Ptr
use xtra.Ptr.{
  Ptr, to_tx_either, to_tx_weak, RefCounter, TxEither, tx_strong, tx_weak, tx_either, rx, destroy,
}
use xtra.Ptr.Counts.{as_sender}
use xtra.Ptr.Undo.{Copied, copied, clone-drop, to_tx_either-Copied}
use xtra.Address
use xtra.MessageChannel.{
  Rc, strong, weak, either, MessageChannel, new, same_actor, eq, hash, downgrade_strong,
  downgrade_either, clone, as_either, drop,
}
use xtra.MessageChannel.Object

-- What the address in a message channel counts as.
abbrev pub policy : {rc : Rc} → MessageChannel rc → RefCounter
policy m = m.inner.address.ptr.ref_counter

-- The pointers that an address with the type `Rc` can have.
abbrev pub Counts : Rc → RefCounter → Type 0
Counts strong k = k ≡ tx_strong
Counts weak k = k ≡ tx_weak
Counts either k = (e : TxEither) × (k ≡ tx_either e)

-- A message channel that was made from an address of its type.
unfoldable pub IsTyped : {rc : Rc} → MessageChannel rc → Type 0
IsTyped {rc} m = Counts rc (policy m)

Counts-sends : (rc : Rc) (k : RefCounter) → Counts rc k → k ≢ rx
Counts-sends strong k h e = cc
Counts-sends weak k h e = cc
Counts-sends either k h e = let (x, h') = h in cc

IsTyped-sends : {rc : Rc} (m : MessageChannel rc) → IsTyped m → policy m ≢ rx
unfolding IsTyped
IsTyped-sends {rc} m h = Counts-sends rc (policy m) h

-- Two message channels of the same type are equal exactly when they give a hasher the same numbers.
pub eq_iff_hash : {rc : Rc} (a b : MessageChannel rc) → (eq a b ≡ true) ↔ (hash a ≡ hash b)
unfolding eq same_actor hash Object.to_inner_ptr Object.is_strong Object.hash
eq_iff_hash a b = ground arith

-- A copy of a channel names the same actor and gives a hasher the same numbers, has the pointer that its
-- type asks for, and when it is dropped the actor's channel is as before the copy was made.
pub record IsCopy {M : Type 0} {D : Deps M} {rc rc2 : Rc} (m : MessageChannel rc) (c : Chan D)
    (n : MessageChannel rc2) (d : Chan D) : Type 0 where
  pub named : same_actor m n ≡ true
  pub hashed : hash m ≡ hash n
  pub typed : IsTyped n
  pub undone : drop n d ≡ c

-- A weak channel to the same actor, which is dropped without a trace.
pub record IsWeakened {M : Type 0} {D : Deps M} {rc : Rc} (m : MessageChannel rc) (c : Chan D)
    (n : MessageChannel weak) : Type 0 where
  pub named : same_actor m n ≡ true
  pub typed : IsTyped n
  pub hashed : (hash m ≡ hash n) ↔ (Ptr.is_strong m.inner.address.ptr ≡ false)
  pub dropped : drop n c ≡ c

same_named :
    {rc rc2 : Rc} (a : MessageChannel rc) (b : MessageChannel rc2)
    → a.inner.address.ptr.inner ≡ b.inner.address.ptr.inner
    → same_actor a b ≡ true
unfolding same_actor Object.to_inner_ptr
same_named a b i = ground arith

same_hashed :
    {rc rc2 : Rc} (a : MessageChannel rc) (b : MessageChannel rc2)
    → a.inner.address.ptr.inner ≡ b.inner.address.ptr.inner
    → Ptr.is_strong a.inner.address.ptr ≡ Ptr.is_strong b.inner.address.ptr
    → hash a ≡ hash b
unfolding hash Object.hash
same_hashed a b i s = ground arith

module _ {M : Type 0} {D : Deps M} {rc : Rc} (m : MessageChannel rc) (c : Chan D) where
  either-IsCopy :
      Copied m.inner.address.ptr c (to_tx_either m.inner.address.ptr c)
      → (n : MessageChannel either) × ((as_either m c).0 ≡ some n) × IsCopy m c n (as_either m c).1
  unfolding new as_either drop Object.to_either Object.drop Address.drop IsTyped
  either-IsCopy (copied q e i s k u) = (
    new (record { ptr = q }),
    rw (e, as_either, Object.to_either) refl,
    record {
      named = same_named _ _ (sym i);
      hashed = same_hashed _ _ (sym i) (sym s);
      typed = k;
      undone = u;
    },
  )

  clone-IsCopy :
      (q : Ptr) (d : Chan D)
      → IsTyped m
      → Ptr.clone m.inner.address.ptr c ≡ (q, d)
      → q ≡ m.inner.address.ptr
      → Ptr.drop m.inner.address.ptr d ≡ c
      → IsCopy m c (clone m c).0 (clone m c).1
  unfolding clone drop Object.clone_channel Object.drop Address.clone Address.drop IsTyped
  clone-IsCopy q d h f e u =
      rw (f, e)
        (record {
          named = same_named _ _ refl;
          hashed = same_hashed _ _ refl refl;
          typed = h;
          undone = u;
        })

module _ {M : Type 0} {D : Deps M} where
  strong-IsWeakened : (m : MessageChannel strong) (c : Chan D) → IsWeakened m c (downgrade_strong m)
  unfolding same_actor hash downgrade_strong drop Object.to_weak Object.to_inner_ptr Object.hash
      Object.drop Address.drop Ptr.drop destroy IsTyped
  strong-IsWeakened m c = record {
    named = ground arith;
    typed = refl;
    hashed = ground arith;
    dropped = refl;
  }

  either-IsWeakened : (m : MessageChannel either) (c : Chan D) → IsWeakened m c (downgrade_either m)
  unfolding same_actor hash downgrade_either drop Object.to_weak Object.to_inner_ptr Object.hash
      Object.drop Address.drop Ptr.drop destroy IsTyped
  either-IsWeakened m c = record {
    named = ground arith;
    typed = refl;
    hashed = ground arith;
    dropped = refl;
  }

  -- A message channel whose address is counted, beside fewer than 2^64 - 2 others, and has the pointer
  -- that its type asks for, is equal to its clone. Its clone, and the channel with either count that is
  -- made from it, name the same actor, give a hasher the same numbers and have the pointers that their
  -- types ask for; when one of these copies is dropped, the actor's channel is as before. The weak
  -- channel that is made from a strong one, or from one with either count, names the same actor and has
  -- a weak pointer, gives a hasher the same numbers exactly if the other is weak too, and is dropped
  -- without a trace.
  pub copies_agree :
      {rc : Rc} (m : MessageChannel rc) (s : MessageChannel strong) (e : MessageChannel either)
      (c : Chan D)
      → IsTyped m
      → as_sender (policy m) ≤ c.sender_count
      → suc c.sender_count < usize_mod
      → (eq m (clone m c).0 ≡ true)
        × IsCopy m c (clone m c).0 (clone m c).1
        × ((n : MessageChannel either) × ((as_either m c).0 ≡ some n)
            × IsCopy m c n (as_either m c).1)
        × IsWeakened s c (downgrade_strong s)
        × IsWeakened e c (downgrade_either e)
  copies_agree m s e c typed counted small =
      let sends = IsTyped-sends m typed in
      let (same, undone) = clone-drop m.inner.address.ptr c sends counted small in
      let copy = clone-IsCopy m c _ _ typed refl same undone in
      (
        (eq_iff_hash m (clone m c).0).1 copy.hashed,
        copy,
        either-IsCopy m c (to_tx_either-Copied m.inner.address.ptr c sends counted small),
        strong-IsWeakened s c,
        either-IsWeakened e c,
      )
