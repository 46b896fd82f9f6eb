-- ===== src/WaitingQueue/Invariant.antt =====
-- What holds of a queue of waiting senders at all times: its handles are distinct, each active one still
-- offers its message, and no cell that has a message to give is without a handle.
use xtra.Prelude.{
  All-update, All-update_apart, ℕ, ◌<◌, ◌≡◌, refl, ==_iff, subst, inl, inr, Option, true, false,
  List, [], ◌∷◌, ◌++◌, ◌==◌, All, Distinct, Distinct-snoc, Distinct-retain, Distinct-middle,
  All-append, All-mono, All-middle, All-retain, arith, is_some,
}
use xtra.Std.{Waker}
use xtra.Priority.{HasPriority}
use xtra.WaitingSender.{Cell, is_active, take_message, drop_handle}
use xtra.WaitingSender
use xtra.WaitingQueue.{
  WaitingQueue, empty, push_back, clear, drop_sender, poll_sender, try_take_waiting_message,
}
use xtra.WaitingQueue.Lined.{
  IsLined, empty-IsLined, push_back-IsLined, poll_sender-IsLined, drop_sender-IsLined,
  clear-IsLined, Takes-IsLined, try_take_waiting_message-IsLined,
}
use xtra.WaitingQueue.Take.{NoneActive, Takes, try_take_waiting_message-Takes}

pub below-apart : (n : ℕ) (xs : List ℕ) → All (λ h. h < n) xs → All (λ x. (n == x) ≡ false) xs
below-apart n [] h = tt
below-apart n (x ∷ xs) h = (ground arith, below-apart n xs h.1)

module _ {M : Type 0} where
  -- An active cell still has its message.
  abbrev pub Offers : Cell M → Type 0
  Offers c = is_active c ≡ true → is_some (take_message c).0 ≡ true

  pub record IsWellFormed (q : WaitingQueue M) : Type 0 where
    pub numbered : All (λ h. h < q.next_cell) q.handles
    pub distinct : Distinct q.handles
    pub offers : All (λ h. Offers (q.cells h)) q.handles
    pub lined : IsLined q

  pub empty-IsWellFormed : IsWellFormed (empty {M = M})
  unfolding empty
  empty-IsWellFormed = record { numbered = tt; distinct = tt; offers = tt; lined = empty-IsLined M }

  Offers-new : (m : M) → Offers (WaitingSender.new m)
  unfolding is_active take_message WaitingSender.new
  Offers-new m h = refl

  Offers-poll : (c : Cell M) (w : Waker) → Offers c → Offers (WaitingSender.poll c w).1
  unfolding is_active take_message WaitingSender.poll
  Offers-poll c w o h = ground (arith, o h)

  Offers-drop_sender : (c : Cell M) → Offers (WaitingSender.drop_sender c)
  unfolding is_active take_message WaitingSender.drop_sender
  Offers-drop_sender c h = cc

  pub push_back-IsWellFormed :
      (q : WaitingQueue M) (m : M) → IsWellFormed q → IsWellFormed (push_back q m).1
  unfolding push_back
  push_back-IsWellFormed q m w = record {
    numbered =
        All-append _ q.handles (q.next_cell ∷ [])
          (All-mono _ _ q.handles (λ x lt. omega arith) w.numbered) (omega arith, tt);
    distinct = Distinct-snoc q.handles q.next_cell w.numbered w.distinct;
    offers =
        All-append _ q.handles (q.next_cell ∷ [])
          (All-update_apart Offers q.cells q.next_cell (WaitingSender.new m) q.handles
            (below-apart q.next_cell q.handles w.numbered) w.offers)
          (rw ((==_iff q.next_cell q.next_cell).1 refl) (Offers-new m), tt);
    lined = push_back-IsLined q m w.lined;
  }

  pub poll_sender-IsWellFormed :
      (q : WaitingQueue M) (h : ℕ) (v : Waker) → IsWellFormed q → IsWellFormed (poll_sender q h v).1
  unfolding poll_sender
  poll_sender-IsWellFormed q h v w = record {
    numbered = w.numbered;
    distinct = w.distinct;
    offers = All-update Offers q.cells h _ q.handles (Offers-poll (q.cells h) v) w.offers;
    lined = poll_sender-IsLined q h v w.lined;
  }

  pub drop_sender-IsWellFormed :
      (q : WaitingQueue M) (h : ℕ) → IsWellFormed q → IsWellFormed (drop_sender q h)
  unfolding drop_sender
  drop_sender-IsWellFormed q h w = record {
    numbered = w.numbered;
    distinct = w.distinct;
    offers = All-update Offers q.cells h _ q.handles (λ _. Offers-drop_sender (q.cells h)) w.offers;
    lined = drop_sender-IsLined q h w.lined;
  }

  pub clear-IsWellFormed : (q : WaitingQueue M) → IsWellFormed q → IsWellFormed (clear q).0
  unfolding clear
  clear-IsWellFormed q w = record {
    numbered = tt;
    distinct = tt;
    offers = tt;
    lined = clear-IsLined q w.lined;
  }

  -- What the senders do does not make an inactive handle active.
  pub poll_sender-NoneActive :
      (q : WaitingQueue M) (h : ℕ) (v : Waker) → NoneActive q → NoneActive (poll_sender q h v).1
  unfolding poll_sender WaitingSender.poll is_active
  poll_sender-NoneActive q h v idle =
      All-update (λ c. is_active c ≡ false) q.cells h _ q.handles (λ e. e) idle

  pub drop_sender-NoneActive :
      (q : WaitingQueue M) (h : ℕ) → NoneActive q → NoneActive (drop_sender q h)
  unfolding drop_sender WaitingSender.drop_sender is_active
  drop_sender-NoneActive q h idle =
      All-update (λ c. is_active c ≡ false) q.cells h _ q.handles (λ e. refl) idle

module _ {M : Type 0} ⦃p : HasPriority M⦄ where
  -- What holds of all handles holds of those that are left.
  Takes-All :
      (q : WaitingQueue M) (m : M) (t : Takes q m) (P : ℕ → Type 0)
      → All P q.handles
      → All P (t.before ++ t.after)
  Takes-All q m t P all =
      (All-middle P t.before t.handle t.after
        (subst (All P) t.chosen.split (All-retain P (λ h. is_active (q.cells h)) q.handles all))).1

  Takes-Distinct :
      (q : WaitingQueue M) (m : M) (t : Takes q m)
      → Distinct q.handles
      → All (λ y. (t.handle == y) ≡ false) (t.before ++ t.after) × Distinct (t.before ++ t.after)
  Takes-Distinct q m t d =
      Distinct-middle t.before t.handle t.after
        (subst Distinct t.chosen.split (Distinct-retain (λ h. is_active (q.cells h)) q.handles d))

  Takes-IsWellFormed :
      (q : WaitingQueue M) (m : M)
      → IsWellFormed q
      → Takes q m
      → IsWellFormed (try_take_waiting_message q).1
  Takes-IsWellFormed q m w t =
      let (apart, distinct) = Takes-Distinct q m t w.distinct in
      let lined = Takes-IsLined q m w.lined t in
      rw t.result (record {
        numbered = Takes-All q m t (λ h. h < q.next_cell) w.numbered;
        distinct = distinct;
        offers =
            All-update_apart Offers q.cells t.handle _ (t.before ++ t.after) apart
              (Takes-All q m t (λ h. Offers (q.cells h)) w.offers);
        lined =
            subst (λ (r : Option (M) × WaitingQueue M × List Waker). IsLined r.1) t.result lined;
      })

  -- Taking a message keeps the queue well formed.
  pub try_take_waiting_message-IsWellFormed :
      (q : WaitingQueue M) → IsWellFormed q → IsWellFormed (try_take_waiting_message q).1
  try_take_waiting_message-IsWellFormed q w = elim (try_take_waiting_message-Takes q w.offers) [
    | inl (none_active, e) ↦
        let lined = try_take_waiting_message-IsLined q w.offers w.lined in
        rw e (record {
          numbered = tt;
          distinct = tt;
          offers = tt;
          lined = subst (λ (r : Option M × WaitingQueue M × List Waker). IsLined r.1) e lined;
        })
    | inr (m, t) ↦ Takes-IsWellFormed q m w t
  ]
