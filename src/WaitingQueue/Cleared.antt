-- ===== src/WaitingQueue/Cleared.antt =====
-- What `clear` leaves of the cells of a queue of xtra/src/chan.rs, summed up.
use xtra.Prelude.{
  ℕ, ◌+◌, ◌<◌, ◌≡◌, refl, false, List, [], ◌∷◌, arith, All, Distinct, ◌==◌, update, sum_of,
  sum_below, below, sum_below-update, ap,
}
use xtra.WaitingSender.{Cell, drop_handle}
use xtra.WaitingQueue.{WaitingQueue, drop_handles, clear}
use xtra.WaitingQueue.Invariant.{IsWellFormed}

module _ {M : Type 0} (f : Cell M → ℕ) where
  sum_of-apart :
      (hs : List ℕ) (cells : ℕ → Cell M) (h : ℕ) (c : Cell M)
      → All (λ x. (h == x) ≡ false) hs
      → sum_of (λ x. f (update cells h c x)) hs ≡ sum_of (λ x. f (cells x)) hs
  sum_of-apart [] cells h c apart = refl
  sum_of-apart (x ∷ hs) cells h c apart =
      rw (apart.0) (ap (◌+◌ (f (cells x))) (sum_of-apart hs cells h c apart.1))

  drop_handles-sum :
      (n : ℕ) (hs : List ℕ) (cells : ℕ → Cell M)
      → ((c : Cell M) → f (drop_handle c).0 ≡ 0)
      → All (λ h. h < n) hs
      → Distinct hs
      → sum_below n (λ i. f ((drop_handles hs cells).0 i)) + sum_of (λ h. f (cells h)) hs
        ≡ sum_below n (λ i. f (cells i))
  unfolding drop_handles
  drop_handles-sum n [] cells gone numbered distinct = omega arith
  drop_handles-sum n (h ∷ hs) cells gone numbered distinct =
      let cells' = update cells h (drop_handle (cells h)).0 in
      let changed = sum_below-update n h f cells (drop_handle (cells h)).0 in
      let was : below n (λ j. f (cells j)) h ≡ f (cells h) = ground (arith, numbered.0) in
      let is : below n (λ j. f (drop_handle (cells h)).0) h ≡ 0 = ground (arith, gone (cells h)) in
      omega (
        arith,
        changed,
        was,
        is,
        drop_handles-sum n hs cells' gone numbered.1 distinct.1,
        sum_of-apart hs cells h (drop_handle (cells h)).0 distinct.0,
      )

  -- What weighs nothing once its handle is dropped is gone from a queue that is cleared.
  pub clear-sum :
      (q : WaitingQueue M)
      → ((c : Cell M) → f (drop_handle c).0 ≡ 0)
      → IsWellFormed q
      → sum_below q.next_cell (λ i. f ((clear q).0.cells i)) + sum_of (λ h. f (q.cells h)) q.handles
        ≡ sum_below q.next_cell (λ i. f (q.cells i))
  unfolding clear
  clear-sum q gone wf = drop_handles-sum q.next_cell q.handles q.cells gone wf.numbered wf.distinct
