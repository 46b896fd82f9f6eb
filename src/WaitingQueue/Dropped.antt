-- ===== src/WaitingQueue/Dropped.antt =====
-- A sender that no longer waits, in the queues of xtra/src/chan.rs.
use xtra.Prelude.{
  ℕ, ◌≡◌, refl, subst, ◌⊎◌, inl, inr, true, false, none, All, All-middle, retain-All, ◌==◌, ==_iff,
  Bool-cases,
}
use xtra.Priority.{HasPriority}
use xtra.WaitingSender
use xtra.WaitingSender.{is_active}
use xtra.WaitingQueue.{WaitingQueue, drop_sender, try_take_waiting_message}
use xtra.WaitingQueue.Take.{Takes, try_take_waiting_message-Takes}
use xtra.WaitingQueue.Invariant.{IsWellFormed, drop_sender-IsWellFormed}

module _ {M : Type 0} where
  dropped-inactive :
      (q : WaitingQueue M) (h i : ℕ)
      → (i == h) ≡ true
      → is_active ((drop_sender q h).cells i) ≡ false
  unfolding drop_sender WaitingSender.drop_sender is_active
  dropped-inactive q h i e = rw ((==_iff i h).0 e, (==_iff h h).1 refl) refl

module _ {M : Type 0} ⦃p : HasPriority M⦄ where
  -- The handle that is chosen is active.
  taken-active : (q : WaitingQueue M) (m : M) (t : Takes q m) → is_active (q.cells t.handle) ≡ true
  taken-active q m t =
      (All-middle (λ h. is_active (q.cells h) ≡ true) t.before t.handle t.after
        (subst (All (λ h. is_active (q.cells h) ≡ true)) t.chosen.split
          (retain-All (λ h. is_active (q.cells h)) q.handles))).0

  -- After a sender of a well-formed queue has been dropped, its message is not handed out: the next one
  -- that is taken, if any, is another's.
  pub drop_sender-Takes :
      (q : WaitingQueue M) (h : ℕ)
      → IsWellFormed q
      → ((try_take_waiting_message (drop_sender q h)).0 ≡ none)
        ⊎ ((m : M) × (t : Takes (drop_sender q h) m) × ((t.handle == h) ≡ false))
  drop_sender-Takes q h w =
      elim (try_take_waiting_message-Takes (drop_sender q h)
        (drop_sender-IsWellFormed q h w).offers) [
          | inl (none_active, e) ↦ inl (rw e refl)
          | inr (m, t) ↦ elim (Bool-cases (t.handle == h)) [
            | inl e ↦ cc (dropped-inactive q h t.handle e, taken-active (drop_sender q h) m t)
            | inr e ↦ inr (m, t, e)
          ]
        ]
