-- ===== src/Ptr/Undo.antt =====
-- A pointer that is made from another one and dropped, in xtra/src/chan/ptr.rs: the channel is as it was.
use xtra.Prelude.{ℕ, suc, ◌<◌, ◌≤◌, ◌≡◌, refl, ◌≢◌, false, Option, some, arith, ◌==◌}
use xtra.Std.{usize_mod, wrapping_inc, wrapping_dec}
use xtra.Chan.State.{Deps, Chan}
use xtra.Chan.Methods.{on_sender_created, on_sender_dropped}
use xtra.Ptr.{
  Ptr, RefCounter, TxEither, strong, weak, tx_strong, tx_weak, tx_either, rx, make_new, destroy,
  inner_ptr, is_strong, to_tx_either,
}
use xtra.Ptr
use xtra.Ptr.Counts.{as_sender, make_new-policy}

module _ {M : Type 0} {D : Deps M} where
  created-dropped :
      (c : Chan D)
      → 1 ≤ c.sender_count
      → suc c.sender_count < usize_mod
      → on_sender_dropped (on_sender_created c) ≡ c
  unfolding on_sender_dropped on_sender_created
  created-dropped c some_left small =
      let several : (wrapping_inc c.sender_count == 1) ≡ false = ground arith in
      let back : wrapping_dec (wrapping_inc c.sender_count) ≡ c.sender_count = omega arith in
      rw (several, back) refl

  -- A counter that is made from one whose own count is there, and is then destroyed.
  pub make_new-destroy :
      (r : RefCounter) (c : Chan D)
      → r ≢ rx
      → as_sender r ≤ c.sender_count
      → suc c.sender_count < usize_mod
      → destroy r (make_new r c).1 ≡ c
  unfolding make_new destroy
  make_new-destroy tx_strong c sends counted small = created-dropped c counted small
  make_new-destroy tx_weak c sends counted small = refl
  make_new-destroy (tx_either strong) c sends counted small = created-dropped c counted small
  make_new-destroy (tx_either weak) c sends counted small = refl
  make_new-destroy rx c sends counted small = absurd (sends refl)

  -- A clone is equal to its pointer; when it is dropped, the channel is as before.
  pub clone-drop :
      (p : Ptr) (c : Chan D)
      → p.ref_counter ≢ rx
      → as_sender p.ref_counter ≤ c.sender_count
      → suc c.sender_count < usize_mod
      → ((Ptr.clone p c).0 ≡ p) × (Ptr.drop p (Ptr.clone p c).1 ≡ c)
  unfolding Ptr.clone Ptr.drop
  clone-drop p c sends counted small = (
    rw (make_new-policy p.ref_counter c) refl,
    make_new-destroy p.ref_counter c sends counted small,
  )

  -- The same for a pointer of the policy `TxEither` that is made from one.
  pub data Copied (p : Ptr) (c : Chan D) (r : Option Ptr × Chan D) : Type 0 where
    copied :
        (q : Ptr)
        → r.0 ≡ some q
        → inner_ptr q ≡ inner_ptr p
        → is_strong q ≡ is_strong p
        → (x : TxEither) × (q.ref_counter ≡ tx_either x)
        → Ptr.drop q r.1 ≡ c
        → Copied p c r

  either-Copied :
      (i : ℕ) (r : RefCounter) (c : Chan D)
      → r ≢ rx
      → as_sender r ≤ c.sender_count
      → suc c.sender_count < usize_mod
      → Copied
          (record { inner = i; ref_counter = r })
          c
          (to_tx_either (record { inner = i; ref_counter = r }) c)
  unfolding to_tx_either make_new Ptr.drop destroy
  either-Copied i tx_strong c sends counted small =
      copied _ refl refl refl (_, refl) (created-dropped c counted small)
  either-Copied i tx_weak c sends counted small = copied _ refl refl refl (_, refl) refl
  either-Copied i (tx_either strong) c sends counted small =
      copied _ refl refl refl (_, refl) (created-dropped c counted small)
  either-Copied i (tx_either weak) c sends counted small = copied _ refl refl refl (_, refl) refl
  either-Copied i rx c sends counted small = absurd (sends refl)

  pub to_tx_either-Copied :
      (p : Ptr) (c : Chan D)
      → p.ref_counter ≢ rx
      → as_sender p.ref_counter ≤ c.sender_count
      → suc c.sender_count < usize_mod
      → Copied p c (to_tx_either p c)
  to_tx_either-Copied p c = either-Copied p.inner p.ref_counter c
