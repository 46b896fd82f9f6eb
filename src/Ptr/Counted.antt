-- ===== src/Ptr/Counted.antt =====
-- All that is done with the pointers to a channel of xtra/src/chan/ptr.rs, and that its counts are those
-- of the pointers that exist.
use xtra.Prelude.{
  ℕ, suc, ◌≤◌, ◌<◌, ◌≡◌, refl, ◌∙◌, some, List, ◌∷◌, arith, get_elem?, sum_of, remove_at,
}
use xtra.Std.{usize_mod}
use xtra.Chan.State.{Deps, Chan}
use xtra.Chan.Steps.{Step}
use xtra.Ptr.{RefCounter, tx_weak, into_either, make_new, destroy, try_new}
use xtra.Ptr.Counts.{
  as_sender, as_receiver, sum_of-remove_at, into_either-counts, as_at_most_1, make_new-sender_count,
  make_new-receiver_count, make_new-policy, try_new-some, destroy-counts,
}

-- A channel and the policies of the pointers to it that exist.
pub record Held {M : Type 0} (D : Deps M) : Type 0 where
  pub chan : Chan D
  pub live : List RefCounter

module _ {M : Type 0} {D : Deps M} where
  -- What anybody does with the pointers, or with the channel through one of them.
  pub data PtrStep (s : Held D) : Held D → Type 0 where
    clones :
        (i : ℕ) (r : RefCounter)
        → get_elem? s.live i ≡ some r
        → PtrStep s (record { chan = (make_new r s.chan).1; live = (make_new r s.chan).0 ∷ s.live })
    drops :
        (i : ℕ) (r : RefCounter)
        → get_elem? s.live i ≡ some r
        → PtrStep s (record { chan = destroy r s.chan; live = remove_at s.live i })
    weakens : PtrStep s (record { chan = s.chan; live = tx_weak ∷ s.live })
    upgrades :
        (r : RefCounter)
        → (try_new s.chan).0 ≡ some r
        → PtrStep s (record { chan = (try_new s.chan).1; live = r ∷ s.live })
    converts :
        (i : ℕ) (r e : RefCounter)
        → get_elem? s.live i ≡ some r
        → into_either r ≡ some e
        → PtrStep s (record { chan = (make_new r s.chan).1; live = e ∷ s.live })
    uses :
        (d : Chan D)
        → Step s.chan d
        → d.sender_count ≡ s.chan.sender_count
        → d.receiver_count ≡ s.chan.receiver_count
        → PtrStep s (record { chan = d; live = s.live })

  pub data PtrSteps (s : Held D) : Held D → Type 0 where
    here : PtrSteps s s
    next : {t u : Held D} → PtrSteps s t → PtrStep t u → PtrSteps s u

  abbrev pub taken : {s t : Held D} → PtrSteps s t → ℕ
  taken here = 0
  taken (next path step) = suc (taken path)

  -- After `n` steps, both counts are those of the pointers that exist.
  pub record IsCounted (n : ℕ) (s : Held D) : Type 0 where
    pub senders : s.chan.sender_count ≡ sum_of as_sender s.live
    pub receivers : s.chan.receiver_count ≡ sum_of as_receiver s.live
    pub senders_small : s.chan.sender_count ≤ suc n
    pub receivers_small : s.chan.receiver_count ≤ suc n

  added-IsCounted :
      (n : ℕ) (s : Held D) (r e : RefCounter)
      → suc (suc n) < usize_mod
      → as_sender e ≡ as_sender r
      → as_receiver e ≡ as_receiver r
      → IsCounted n s
      → IsCounted (suc n) (record { chan = (make_new r s.chan).1; live = e ∷ s.live })
  added-IsCounted n s r e small a b k =
      let x = make_new-sender_count r s.chan (omega (arith, k.senders_small)) in
      let y = make_new-receiver_count r s.chan (omega (arith, k.receivers_small)) in
      let (p, q) = as_at_most_1 r in
      record {
        senders = omega (arith, k.senders);
        receivers = omega (arith, k.receivers);
        senders_small = omega (arith, k.senders_small);
        receivers_small = omega (arith, k.receivers_small);
      }

  PtrStep-IsCounted :
      {s t : Held D} (n : ℕ)
      → suc (suc n) < usize_mod
      → PtrStep s t
      → IsCounted n s
      → IsCounted (suc n) t
  unfolding try_new
  PtrStep-IsCounted {s} n small (clones i r e) k =
      rw (make_new-policy r s.chan) (added-IsCounted n s r r small refl refl k)
  PtrStep-IsCounted {s} n small (drops i r e) k =
      let (a, b) =
        destroy-counts r s.chan (sum_of as_sender (remove_at s.live i))
          (sum_of as_receiver (remove_at s.live i))
          (k.senders ∙ sum_of-remove_at as_sender s.live i r e)
          (k.receivers ∙ sum_of-remove_at as_receiver s.live i r e) (omega (arith, k.senders_small))
          (omega (arith, k.receivers_small)) in
      let x = sum_of-remove_at as_sender s.live i r e in
      let y = sum_of-remove_at as_receiver s.live i r e in
      record {
        senders = a;
        receivers = b;
        senders_small = omega (arith, k.senders_small, k.senders);
        receivers_small = omega (arith, k.receivers_small, k.receivers);
      }
  PtrStep-IsCounted {s} n small weakens k = record {
    senders = omega (arith, k.senders);
    receivers = omega (arith, k.receivers);
    senders_small = omega (arith, k.senders_small);
    receivers_small = omega (arith, k.receivers_small);
  }
  PtrStep-IsCounted {s} n small (upgrades r e) k =
      let (policy, result, nz) = try_new-some s.chan r e in
      rw (result, policy)
        (record {
          senders = omega (arith, k.senders, k.senders_small);
          receivers = omega (arith, k.receivers);
          senders_small = omega (arith, k.senders_small);
          receivers_small = omega (arith, k.receivers_small);
        })
  PtrStep-IsCounted {s} n small (converts i r e at c) k =
      let (a, b) = into_either-counts r e c in added-IsCounted n s r e small a b k
  PtrStep-IsCounted {s} n small (uses d step a b) k = record {
    senders = a ∙ k.senders;
    receivers = b ∙ k.receivers;
    senders_small = omega (arith, k.senders_small);
    receivers_small = omega (arith, k.receivers_small);
  }

  pub PtrSteps-IsCounted :
      {s t : Held D} (path : PtrSteps s t)
      → suc (taken path) < usize_mod
      → IsCounted 0 s
      → IsCounted (taken path) t
  PtrSteps-IsCounted here small k = k
  PtrSteps-IsCounted (next path step) small k =
      PtrStep-IsCounted (taken path) small step (PtrSteps-IsCounted path (omega arith) k)
