-- ===== src/WaitingQueue/Select.antt =====
-- `find_remove_highest_priority` takes out the last of the active handles with the greatest
-- priority, and leaves the other active ones in order.
use xtra.Prelude.{
  ℕ, suc, ◌+◌, ◌≡◌, refl, ◌⊎◌, inl, inr, true, false, Option, none, some, List, [], ◌∷◌, ◌++◌,
  length, retain, All, arith, append_assoc, Bool-cases, length-append, All-append, All-mono,
  get_elem?-middle, remove_at-middle,
}
use xtra.Priority.{Priority, HasPriority, cmp_option}
use xtra.Priority.Order.{le_option, le_option_trans, not_le_option-le}
use xtra.WaitingSender.{is_active}
use xtra.WaitingQueue.{
  WaitingQueue, key, later_wins, last_max, max_pos, take_out, find_remove_highest_priority,
}

module _ (key : ℕ → Option Priority) where
  -- `h` stands in `xs` between `before` and `after`: no other has a greater key, and those behind it
  -- have smaller ones.
  pub record Chosen (xs : List ℕ) (h : ℕ) (before after : List ℕ) : Type 0 where
    pub split : xs ≡ before ++ h ∷ after
    pub not_above : All (λ x. le_option (key x) (key h) ≡ true) before
    pub below : All (λ x. le_option (key h) (key x) ≡ false) after

  pub record ChosenAt (xs : List ℕ) (pos : ℕ) : Type 0 where
    pub handle : ℕ
    pub before : List ℕ
    pub after : List ℕ
    pub chosen : Chosen xs handle before after
    pub place : pos ≡ length before

  wins-le : (p q : Option Priority) → later_wins (cmp_option p q) ≡ true → le_option p q ≡ true
  unfolding later_wins
  wins-le p q h = ground arith

  loses-not_le :
      (p q : Option Priority) → later_wins (cmp_option p q) ≡ false → le_option p q ≡ false
  unfolding later_wins
  loses-not_le p q h = ground arith

  last_max-ChosenAt :
      (before : List ℕ) (b : ℕ) (mid hs : List ℕ)
      → All (λ x. le_option (key x) (key b) ≡ true) before
      → All (λ x. le_option (key b) (key x) ≡ false) mid
      → (best pos : ℕ) → best ≡ length before
      → pos ≡ suc (length before + length mid)
      → ChosenAt (before ++ b ∷ (mid ++ hs)) (last_max key best (key b) pos hs)
  unfolding last_max
  last_max-ChosenAt before b mid [] not_above below best pos e e' = record {
    handle = b;
    before = before;
    after = mid ++ [];
    chosen = record {
      split = refl;
      not_above = not_above;
      below = All-append (λ x. le_option (key b) (key x) ≡ false) mid [] below tt;
    };
    place = e;
  }
  last_max-ChosenAt before b mid (h ∷ hs) not_above below best pos e e' =
      elim (Bool-cases (later_wins (cmp_option (key b) (key h)))) [
        | inl w ↦
            let b_le = wins-le (key b) (key h) w in
            rw (w, ← append_assoc before (b ∷ mid) (h ∷ hs))
              (last_max-ChosenAt (before ++ b ∷ mid) h [] hs
                (All-append _ before (b ∷ mid)
                  (All-mono _ _ before (λ x q. le_option_trans (key x) (key b) (key h) q b_le)
                    not_above)
                  (
                    b_le,
                    All-mono _ _ mid
                        (λ x q.
                          le_option_trans (key x) (key b) (key h)
                            (not_le_option-le (key b) (key x) q) b_le)
                        below,
                  ))
                tt pos (suc pos) (omega (arith, length-append before (b ∷ mid)))
                (omega (arith, length-append before (b ∷ mid))))
        | inr w ↦
            rw (w, ← append_assoc mid (h ∷ []) hs)
              (last_max-ChosenAt before b (mid ++ h ∷ []) hs not_above
                (All-append _ mid (h ∷ []) below (loses-not_le (key b) (key h) w, tt)) best
                (suc pos) e (omega (arith, length-append mid (h ∷ []))))
      ]

  max_pos-ChosenAt : (h : ℕ) (hs : List ℕ) → ChosenAt (h ∷ hs) (last_max key 0 (key h) 1 hs)
  max_pos-ChosenAt h hs = last_max-ChosenAt [] h [] hs tt tt 0 1 refl refl

module _ {M : Type 0} ⦃p : HasPriority M⦄ where
  abbrev pub active_handles : WaitingQueue M → List ℕ
  active_handles q = retain (λ h. is_active (q.cells h)) q.handles

  -- `found` is how the search ends on the handles `xs`.
  abbrev pub Finds : WaitingQueue M → List ℕ → Option ℕ × WaitingQueue M → Type 0
  Finds q xs r =
      ((xs ≡ []) × (r ≡ (none, record q { handles = [] })))
      ⊎ ((h : ℕ) × (before : List ℕ) × (after : List ℕ) × (r
            ≡ (some h, record q { handles = before ++ after }))
          × Chosen (key q) xs h before after)

  take_out-Finds : (q : WaitingQueue M) (xs : List ℕ) → Finds q xs (take_out q xs)
  unfolding take_out max_pos
  take_out-Finds q [] = inl (refl, refl)
  take_out-Finds q (x ∷ xs) =
      let at = max_pos-ChosenAt (key q) x xs in
      inr (
        at.handle,
        at.before,
        at.after,
        rw (
          at.place,
          at.chosen.split,
          get_elem?-middle at.before at.handle at.after,
          remove_at-middle at.before at.handle at.after,
        ),
        at.chosen,
      )

  -- The search fails when no handle is active, and then leaves none; else it takes out the last of
  -- the active handles with the greatest priority, and leaves the other active ones in order.
  pub find_remove_highest_priority-Finds :
      (q : WaitingQueue M) → Finds q (active_handles q) (find_remove_highest_priority q)
  unfolding find_remove_highest_priority
  find_remove_highest_priority-Finds q = take_out-Finds q (active_handles q)
