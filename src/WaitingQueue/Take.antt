-- ===== src/WaitingQueue/Take.antt =====
-- `try_take_waiting_unicast_message` and its twin: the loop ends, and what it takes.
use xtra.Prelude.{
  ℕ, zero, suc, ◌<◌, ◌≡◌, refl, sym, ◌∙◌, ap, ◌⊎◌, inl, inr, true, false, Option, none, some, List,
  [], ◌∷◌, ◌++◌, length, All, arith, length-append, length-retain-le, retain-nil, update, ◌≢◌,
  is_some, Option-cases, All-middle, All-retain, retain-All, subst,
}
use xtra.Std.{Waker}
use xtra.Priority.{HasPriority}
use xtra.WaitingSender.{is_active, take_message, drop_handle}
use xtra.WaitingQueue.{
  WaitingQueue, key, find_remove_highest_priority, take_from, take_round, take_loop,
  try_take_waiting_message,
}
use xtra.WaitingQueue.Select.{Chosen, active_handles, find_remove_highest_priority-Finds}

module _ {M : Type 0} where
  -- No sender waits in the queue any more.
  abbrev pub NoneActive : WaitingQueue M → Type 0
  NoneActive q = All (λ h. is_active (q.cells h) ≡ false) q.handles

cons-ne-nil {ℓ} : {A : Type ℓ} (xs : List A) (a : A) (ys : List A) → xs ++ a ∷ ys ≢ []
cons-ne-nil [] a ys e = cc
cons-ne-nil (x ∷ xs) a ys e = cc

module _ {M : Type 0} ⦃p : HasPriority M⦄ where
  found-shorter :
      (q left : WaitingQueue M) (h : ℕ)
      → find_remove_highest_priority q ≡ (some h, left)
      → length left.handles < length q.handles
  found-shorter q left h e = elim (find_remove_highest_priority-Finds q) [
    | inl (none_active, e') ↦ cc
    | inr (h', before, after, e', c) ↦
        let l = ap (λ (r : Option ℕ × WaitingQueue M). r.1.handles) (sym e ∙ e') in
        omega (
          arith,
          ap length l,
          ap length c.split,
          length-append before after,
          length-append before (h' ∷ after),
          length-retain-le (λ x. is_active (q.cells x)) q.handles,
        )
  ]

  -- Two continuations that agree on shorter queues give the same round.
  take_round-agree :
      (f g : WaitingQueue M → Option M × WaitingQueue M × List Waker) (q : WaitingQueue M)
      (r : Option ℕ × WaitingQueue M)
      → find_remove_highest_priority q ≡ r
      → ((s : WaitingQueue M) → length s.handles < length q.handles → f s ≡ g s)
      → take_round f r ≡ take_round g r
  unfolding take_round take_from
  take_round-agree f g q (none, left) e h = refl
  take_round-agree f g q (some x, left) e h =
      let shorter = found-shorter q left x e in ground (arith, h (take_from left x).1)

  -- The loop that takes the next waiting message ends: any two amounts of fuel beyond the number of
  -- handles give the same.
  pub take_loop-enough :
      (f g : ℕ) (q : WaitingQueue M)
      → length q.handles < f
      → length q.handles < g
      → take_loop f q ≡ take_loop g q
  unfolding take_loop
  take_loop-enough zero g q hf hg = absurd (omega arith)
  take_loop-enough (suc f) zero q hf hg = absurd (omega arith)
  take_loop-enough (suc f) (suc g) q hf hg =
      take_round-agree (take_loop f) (take_loop g) q (find_remove_highest_priority q) refl
        λ s lt. take_loop-enough f g s (omega arith) (omega arith)

  take_round-none :
      (f : WaitingQueue M → Option M × WaitingQueue M × List Waker) (q : WaitingQueue M)
      → ((s : WaitingQueue M)
          → length s.handles < length q.handles
          → (f s).0 ≡ none
          → (f s).1.handles ≡ [])
      → (r : Option ℕ × WaitingQueue M) → find_remove_highest_priority q ≡ r
      → (take_round f r).0 ≡ none
      → (take_round f r).1.handles ≡ []
  unfolding take_round take_from
  take_round-none f q h (none, left) e n = elim (find_remove_highest_priority-Finds q) [
    | inl (none_active, e') ↦ ap (λ (r : Option ℕ × WaitingQueue M). r.1.handles) (sym e ∙ e')
    | inr (h', before, after, e', c) ↦ cc
  ]
  take_round-none f q h (some x, left) e n =
      let shorter = found-shorter q left x e in ground (arith, h (take_from left x).1)

  take_loop-none :
      (fuel : ℕ) (q : WaitingQueue M)
      → length q.handles < fuel
      → (take_loop fuel q).0 ≡ none
      → (take_loop fuel q).1.handles ≡ []
  unfolding take_loop
  take_loop-none zero q lt n = absurd (omega arith)
  take_loop-none (suc fuel) q lt n =
      take_round-none (take_loop fuel) q (λ s shorter. take_loop-none fuel s (omega arith))
        (find_remove_highest_priority q) refl n

  -- When nothing is taken, no sender waits any more: the queue is left without handles.
  pub try_take_waiting_message-none :
      (q : WaitingQueue M)
      → (try_take_waiting_message q).0 ≡ none
      → (try_take_waiting_message q).1.handles ≡ []
  unfolding try_take_waiting_message
  try_take_waiting_message-none q n = take_loop-none (suc (length q.handles)) q (omega arith) n

  -- Where no sender waits, nothing is taken, and nothing but the handles changes.
  pub try_take_waiting_message-NoneActive :
      (q : WaitingQueue M)
      → NoneActive q
      → try_take_waiting_message q ≡ (none, record q { handles = [] }, [])
  unfolding try_take_waiting_message take_loop take_round
  try_take_waiting_message-NoneActive q idle = elim (find_remove_highest_priority-Finds q) [
    | inl (none_active, e) ↦ rw (e, take_round)
    | inr (h, before, after, e, c) ↦ absurd (
        cons-ne-nil before h after
          (sym c.split ∙ retain-nil (λ x. is_active (q.cells x)) q.handles idle))
  ]

  -- The handle `h` is chosen among the active ones, its message `m` is taken, and its task is woken.
  pub record Takes (q : WaitingQueue M) (m : M) : Type 0 where
    pub handle : ℕ
    pub before : List ℕ
    pub after : List ℕ
    pub chosen : Chosen (key q) (active_handles q) handle before after
    pub takes : (take_message (q.cells handle)).0 ≡ some m
    pub result : try_take_waiting_message q ≡ (
      some m,
      record q {
        handles = before ++ after;
        cells = update q.cells handle (drop_handle (take_message (q.cells handle)).1).0;
      },
      (take_message (q.cells handle)).2,
    )

  -- What every active handle of the queue offers.
  abbrev pub IsWaiting : WaitingQueue M → Type 0
  IsWaiting q =
      All (λ h. is_active (q.cells h) ≡ true → is_some (take_message (q.cells h)).0 ≡ true)
        q.handles

  -- In a queue whose active handles still have their messages, nothing is taken if no handle is active,
  -- and else the last one with the greatest priority is served, in one round.
  pub try_take_waiting_message-Takes :
      (q : WaitingQueue M)
      → IsWaiting q
      → ((active_handles q ≡ [])
          × (try_take_waiting_message q ≡ (none, record q { handles = [] }, [])))
        ⊎ ((m : M) × Takes q m)
  unfolding try_take_waiting_message take_loop take_round take_from
  try_take_waiting_message-Takes q w = elim (find_remove_highest_priority-Finds q) [
    | inl (none_active, e) ↦ inl (none_active, rw (e, take_round))
    | inr (h, before, after, e, c) ↦
        let offers =
          All-middle _ before h after
            (subst (All _) c.split (All-retain _ (λ x. is_active (q.cells x)) q.handles w)) in
        let act =
          All-middle _ before h after
            (subst (All _) c.split (retain-All (λ x. is_active (q.cells x)) q.handles)) in
        elim (Option-cases (take_message (q.cells h)).0) [
          | inl e' ↦ absurd (ground (arith, offers.0 act.0))
          | inr (m, e') ↦ inr (
            m,
            record {
              handle = h;
              before = before;
              after = after;
              chosen = c;
              takes = e';
              result = ground arith;
            },
          )
        ]
  ]
