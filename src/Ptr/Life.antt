-- ===== src/Ptr/Life.antt =====
-- A channel from its creation by `chan::new` to the end of its connection, for all that its pointers
-- (xtra/src/chan/ptr.rs) do.
use xtra.Prelude.{
  ℕ, suc, ◌<◌, ◌≡◌, refl, ◌∙◌, ◌⊎◌, inl, inr, false, Option, some, [], ◌∷◌, arith, get_elem?,
  sum_of,
}
use xtra.Std.{usize_mod}
use xtra.Chan.State.{Deps, Chan}
use xtra.Chan.Methods
use xtra.Chan.Methods.{is_connected, on_sender_created, on_receiver_created}
use xtra.Ptr
use xtra.Ptr.{
  RefCounter, TxEither, strong, weak, tx_strong, tx_weak, tx_either, rx, into_either, make_new,
  destroy, try_new,
}
use xtra.Ptr.Counts.{
  as_sender, as_receiver, sum_of-remove_at, make_new-sender_count, make_new-receiver_count,
  make_new-policy, sender_dropped-counts, receiver_dropped-counts, into_either-counts, try_new-some,
}
use xtra.Ptr.Counted.{
  Held, PtrStep, PtrSteps, clones, drops, weakens, upgrades, converts, uses, here, next, taken,
  IsCounted, PtrSteps-IsCounted,
}

module _ {M : Type 0} {D : Deps M} where
  -- A policy that is not counted leaves the count alone.
  destroy-senders :
      (r : RefCounter) (c : Chan D) → as_sender r ≡ 0 → (destroy r c).sender_count ≡ c.sender_count
  unfolding destroy
  destroy-senders tx_strong c e = omega arith
  destroy-senders tx_weak c e = refl
  destroy-senders (tx_either strong) c e = omega arith
  destroy-senders (tx_either weak) c e = refl
  destroy-senders rx c e = (receiver_dropped-counts c).0

  destroy-receivers :
      (r : RefCounter) (c : Chan D)
      → as_receiver r ≡ 0
      → (destroy r c).receiver_count ≡ c.receiver_count
  unfolding destroy
  destroy-receivers tx_strong c e = (sender_dropped-counts c).1
  destroy-receivers tx_weak c e = refl
  destroy-receivers (tx_either strong) c e = (sender_dropped-counts c).1
  destroy-receivers (tx_either weak) c e = refl
  destroy-receivers rx c e = omega arith

  -- Of the kind that `f` counts there is no pointer, and the channel knows of none.
  record NoSender (s : Held D) : Type 0 where
    count : s.chan.sender_count ≡ 0
    live : sum_of as_sender s.live ≡ 0

  record NoReceiver (s : Held D) : Type 0 where
    count : s.chan.receiver_count ≡ 0
    live : sum_of as_receiver s.live ≡ 0

  added-NoSender :
      (s : Held D) (i : ℕ) (r e : RefCounter)
      → get_elem? s.live i ≡ some r
      → as_sender e ≡ as_sender r
      → NoSender s
      → NoSender (record { chan = (make_new r s.chan).1; live = e ∷ s.live })
  added-NoSender s i r e at same n =
      let x = make_new-sender_count r s.chan (omega (arith, n.count)) in
      let y = sum_of-remove_at as_sender s.live i r at in
      record { count = omega (arith, n.count, n.live); live = omega (arith, n.live) }

  added-NoReceiver :
      (s : Held D) (i : ℕ) (r e : RefCounter)
      → get_elem? s.live i ≡ some r
      → as_receiver e ≡ as_receiver r
      → NoReceiver s
      → NoReceiver (record { chan = (make_new r s.chan).1; live = e ∷ s.live })
  added-NoReceiver s i r e at same n =
      let x = make_new-receiver_count r s.chan (omega (arith, n.count)) in
      let y = sum_of-remove_at as_receiver s.live i r at in
      record { count = omega (arith, n.count, n.live); live = omega (arith, n.live) }

  PtrStep-NoSender : {s t : Held D} → PtrStep s t → NoSender s → NoSender t
  PtrStep-NoSender {s} (clones i r e) n =
      rw (make_new-policy r s.chan) (added-NoSender s i r r e refl n)
  PtrStep-NoSender {s} (drops i r e) n =
      let y = sum_of-remove_at as_sender s.live i r e in
      let x = destroy-senders r s.chan (omega (arith, n.live)) in
      record { count = x ∙ n.count; live = omega (arith, n.live) }
  PtrStep-NoSender weakens n = record { count = n.count; live = omega (arith, n.live) }
  PtrStep-NoSender {s} (upgrades r e) n =
      let (policy, result, nz) = try_new-some s.chan r e in absurd (ground (arith, n.count))
  PtrStep-NoSender {s} (converts i r e at c) n =
      added-NoSender s i r e at (into_either-counts r e c).0 n
  PtrStep-NoSender (uses d step a b) n = record { count = a ∙ n.count; live = n.live }

  PtrStep-NoReceiver : {s t : Held D} → PtrStep s t → NoReceiver s → NoReceiver t
  PtrStep-NoReceiver {s} (clones i r e) n =
      rw (make_new-policy r s.chan) (added-NoReceiver s i r r e refl n)
  PtrStep-NoReceiver {s} (drops i r e) n =
      let y = sum_of-remove_at as_receiver s.live i r e in
      let x = destroy-receivers r s.chan (omega (arith, n.live)) in
      record { count = x ∙ n.count; live = omega (arith, n.live) }
  PtrStep-NoReceiver weakens n = record { count = n.count; live = omega (arith, n.live) }
  PtrStep-NoReceiver {s} (upgrades r e) n =
      let (policy, result, nz) = try_new-some s.chan r e in
      rw (result, policy) (record { count = n.count; live = omega (arith, n.live) })
  PtrStep-NoReceiver {s} (converts i r e at c) n =
      added-NoReceiver s i r e at (into_either-counts r e c).1 n
  PtrStep-NoReceiver (uses d step a b) n = record { count = b ∙ n.count; live = n.live }

  PtrSteps-NoSender : {s t : Held D} → PtrSteps s t → NoSender s → NoSender t
  PtrSteps-NoSender here n = n
  PtrSteps-NoSender (next path step) n = PtrStep-NoSender step (PtrSteps-NoSender path n)

  PtrSteps-NoReceiver : {s t : Held D} → PtrSteps s t → NoReceiver s → NoReceiver t
  PtrSteps-NoReceiver here n = n
  PtrSteps-NoReceiver (next path step) n = PtrStep-NoReceiver step (PtrSteps-NoReceiver path n)

  disconnected_lem :
      (c : Chan D) → is_connected c ≡ false → (c.sender_count ≡ 0) ⊎ (c.receiver_count ≡ 0)
  unfolding is_connected
  disconnected_lem c e = ground arith

  no_sender-is_connected : (c : Chan D) → c.sender_count ≡ 0 → is_connected c ≡ false
  unfolding is_connected
  no_sender-is_connected c e = ground (arith, e)

  no_receiver-is_connected : (c : Chan D) → c.receiver_count ≡ 0 → is_connected c ≡ false
  unfolding is_connected
  no_receiver-is_connected c e = ground (arith, e)

-- A new channel with the two pointers that `chan::new` gives.
abbrev pub created : {M : Type 0} (D : Deps M) → Option ℕ → Held D
created D capacity = record { chan = (Ptr.new D 0 capacity).1; live = tx_strong ∷ rx ∷ [] }

created-IsCounted :
    {M : Type 0} (D : Deps M) (capacity : Option ℕ) → IsCounted 0 (created D capacity)
unfolding Ptr.new Ptr.new_tx Ptr.new_rx make_new on_sender_created on_receiver_created Methods.new
created-IsCounted D capacity = record {
  senders = omega arith;
  receivers = omega arith;
  senders_small = omega arith;
  receivers_small = omega arith;
}

module _ {M : Type 0} (D : Deps M) (capacity : Option ℕ) {s : Held D} where
  -- After fewer than 2^64 - 1 steps of cloning, converting, upgrading, dropping and using its pointers,
  -- the two counts of a channel are the numbers of its strong addresses and of its receivers.
  pub created-PtrSteps-IsCounted :
      (path : PtrSteps (created D capacity) s)
      → suc (taken path) < usize_mod
      → IsCounted (taken path) s
  created-PtrSteps-IsCounted path small =
      PtrSteps-IsCounted path small (created-IsCounted D capacity)

  -- A channel that has lost its connection after fewer than 2^64 - 1 steps does not get it back, whatever
  -- is done later with the pointers that are left.
  pub is_connected-lost :
      (path : PtrSteps (created D capacity) s)
      → suc (taken path) < usize_mod
      → is_connected s.chan ≡ false
      → {t : Held D} → PtrSteps s t
      → is_connected t.chan ≡ false
  is_connected-lost path small lost {t} later =
      let k = created-PtrSteps-IsCounted path small in
      elim (disconnected_lem s.chan lost) [
        | inl z ↦
            no_sender-is_connected t.chan
              (PtrSteps-NoSender later
                (record { count = z; live = omega (arith, k.senders) })).count
        | inr z ↦
            no_receiver-is_connected t.chan
              (PtrSteps-NoReceiver later
                (record { count = z; live = omega (arith, k.receivers) })).count
      ]
