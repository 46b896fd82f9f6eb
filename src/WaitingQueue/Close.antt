-- ===== src/WaitingQueue/Close.antt =====
-- `clear` closes each waiting sender and wakes its task.
use xtra.Prelude.{
  ℕ, ◌≡◌, refl, sym, subst, ◌⊎◌, inl, inr, true, List, [], ◌∷◌, arith, All, All-mono, All-update,
  All-elem, ◌==◌, ==_iff, Bool-cases,
}
use xtra.Std.{ready, pending, err, Waker}
use xtra.Error.{disconnected}
use xtra.WaitingSender.{Cell, is_active, take_message, drop_handle, poll}
use xtra.WaitingQueue.{WaitingQueue, drop_handles, clear}
use xtra.WaitingQueue.Lined.{Has}
use xtra.WaitingQueue.Invariant.{Offers, IsWellFormed}

module _ {M : Type 0} where
  -- The sender, if it is still there, learns that the channel is disconnected.
  abbrev pub IsClosed : Cell M → Type 0
  IsClosed c = is_active c ≡ true → (w : Waker) → (poll c w).0 ≡ ready (err disconnected)

  -- The sender is still there, and its future is not ready.
  abbrev pub IsPending : Cell M → Type 0
  IsPending c = (is_active c ≡ true) × ((w : Waker) → (poll c w).0 ≡ pending)

  IsPending-Has : (c : Cell M) → IsPending c → Has c
  unfolding is_active poll take_message
  IsPending-Has c (a, k) = ground (arith, k 0)

  drop_handle-IsClosed : (c : Cell M) → Offers c ⊎ IsClosed c → IsClosed (drop_handle c).0
  unfolding drop_handle is_active poll take_message
  drop_handle-IsClosed c (inl o) a w = ground (arith, o (ground arith))
  drop_handle-IsClosed c (inr k) a w = ground (arith, k (ground arith) w)

  drop_handles-keeps :
      (hs : List ℕ) (cells : ℕ → Cell M) (i : ℕ)
      → IsClosed (cells i)
      → IsClosed ((drop_handles hs cells).0 i)
  unfolding drop_handles
  drop_handles-keeps [] cells i k = k
  drop_handles-keeps (h ∷ hs) cells i k = drop_handles-keeps hs _ i (elim (Bool-cases (h == i)) [
    | inl e ↦ rw e (
        drop_handle-IsClosed (cells h)
          (inr (subst (λ x. IsClosed (cells x)) (sym ((==_iff h i).0 e)) k)))
    | inr e ↦ rw e k
  ])

  drop_handles-closes :
      (hs : List ℕ) (cells : ℕ → Cell M)
      → All (λ h. Offers (cells h) ⊎ IsClosed (cells h)) hs
      → All (λ h. IsClosed ((drop_handles hs cells).0 h)) hs
  unfolding drop_handles
  drop_handles-closes [] cells o = tt
  drop_handles-closes (h ∷ hs) cells o = (
    drop_handles-keeps hs _ h (rw ((==_iff h h).1 refl) (drop_handle-IsClosed (cells h) o.0)),
    drop_handles-closes hs _ (
        All-update (λ c. Offers c ⊎ IsClosed c) cells h (drop_handle (cells h)).0 hs
          (λ k. inr (drop_handle-IsClosed (cells h) k)) o.1),
  )

  -- A well-formed queue that is cleared forgets its handles, and each waiting sender that it had, if it is
  -- still there, learns that the channel is disconnected.
  pub clear-IsClosed :
      (q : WaitingQueue M)
      → IsWellFormed q
      → ((clear q).0.handles ≡ []) × All (λ h. IsClosed ((clear q).0.cells h)) q.handles
  unfolding clear
  clear-IsClosed q w =
      (refl, drop_handles-closes q.handles q.cells (All-mono _ _ q.handles (λ h o. inl o) w.offers))

  -- So does every sender that was pending: its handle was in the line.
  pub clear-IsPending :
      (q : WaitingQueue M) (h : ℕ)
      → IsWellFormed q
      → IsPending (q.cells h)
      → IsClosed ((clear q).0.cells h)
  clear-IsPending q h w k =
      All-elem (λ x. IsClosed ((clear q).0.cells x)) h q.handles (clear-IsClosed q w).1
        (w.lined h (IsPending-Has (q.cells h) k))
