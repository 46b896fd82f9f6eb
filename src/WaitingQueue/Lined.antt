-- ===== src/WaitingQueue/Lined.antt =====
-- No waiting sender is forgotten by the queues of xtra/src/chan.rs.
use xtra.Prelude.{
  ℕ, ◌≡◌, refl, ◌⊎◌, if◌then◌else◌, subst, inl, inr, true, false, List, [], ◌∷◌, ◌++◌, arith, ◌==◌,
  ==_iff, update, Bool-cases, is_some, elem, elem-append, elem-snoc, elem-retain, elem-middle,
}
use xtra.Std.{Waker}
use xtra.Priority.{HasPriority}
use xtra.WaitingSender.{Cell, is_active, take_message, drop_handle}
use xtra.WaitingSender
use xtra.WaitingQueue.{
  WaitingQueue, empty, push_back, drop_handles, clear, drop_sender, poll_sender,
  try_take_waiting_message,
}
use xtra.WaitingQueue.Take.{Takes, IsWaiting, try_take_waiting_message-Takes}
use xtra.WaitingQueue.Select.{active_handles}

module _ {M : Type 0} where
  -- A cell that still has a message to give, whose sender is still there.
  abbrev pub Has : Cell M → Type 0
  Has c = is_some (take_message c).0 ≡ true

  -- The handle of each such cell is in the line.
  abbrev pub IsLined : WaitingQueue M → Type 0
  IsLined q = (h : ℕ) → Has (q.cells h) → elem h q.handles ≡ true

  Has-active : (c : Cell M) → Has c → is_active c ≡ true
  unfolding take_message is_active
  Has-active c k = ground arith

  updated-Has :
      (cells : ℕ → Cell M) (i : ℕ) (c : Cell M) (h : ℕ)
      → Has (update cells i c h)
      → (((i == h) ≡ true) × Has c) ⊎ (((i == h) ≡ false) × Has (cells h))
  updated-Has cells i c h k = elim (Bool-cases (i == h)) [
    | inl e ↦ inl (e, subst (λ b. Has (if b then c else cells h)) e k)
    | inr e ↦ inr (e, subst (λ b. Has (if b then c else cells h)) e k)
  ]

  poll-Has : (c : Cell M) (v : Waker) → Has (WaitingSender.poll c v).1 → Has c
  unfolding take_message WaitingSender.poll
  poll-Has c v k = ground arith

  drop_sender-Has : (c : Cell M) → Has (WaitingSender.drop_sender c) → Has c
  unfolding take_message WaitingSender.drop_sender
  drop_sender-Has c k = cc

  dropped-Has : (c : Cell M) → ¬ Has (drop_handle c).0
  unfolding take_message drop_handle
  dropped-Has c k = ground arith

  taken-Has : (c : Cell M) → ¬ Has (drop_handle (take_message c).1).0
  unfolding take_message drop_handle
  taken-Has c k = ground arith

  drop_handles-Has :
      (hs : List ℕ) (cells : ℕ → Cell M) (h : ℕ)
      → Has ((drop_handles hs cells).0 h)
      → Has (cells h) × (elem h hs ≡ false)
  unfolding drop_handles
  drop_handles-Has [] cells h k = (k, refl)
  drop_handles-Has (x ∷ hs) cells h k =
      let (before, out) = drop_handles-Has hs (update cells x (drop_handle (cells x)).0) h k in
      elim (updated-Has cells x (drop_handle (cells x)).0 h before) [
        | inl (e, has) ↦ absurd (dropped-Has (cells x) has)
        | inr (e, has) ↦ (has, rw e out)
      ]

pub empty-IsLined : (M : Type 0) → IsLined (empty {M = M})
unfolding empty take_message
empty-IsLined M h k = cc

module _ {M : Type 0} (q : WaitingQueue M) where
  pub push_back-IsLined : (m : M) → IsLined q → IsLined (push_back q m).1
  unfolding push_back
  push_back-IsLined m lined h k = elim (updated-Has q.cells q.next_cell (WaitingSender.new m) h k) [
    | inl (e, has) ↦
        subst (λ x. elem x (q.handles ++ q.next_cell ∷ []) ≡ true) ((==_iff q.next_cell h).0 e)
          (elem-snoc q.next_cell q.handles)
    | inr (e, has) ↦ elem-append h q.handles (q.next_cell ∷ []) (lined h has)
  ]

  pub poll_sender-IsLined : (i : ℕ) (v : Waker) → IsLined q → IsLined (poll_sender q i v).1
  unfolding poll_sender
  poll_sender-IsLined i v lined h k =
      elim (updated-Has q.cells i (WaitingSender.poll (q.cells i) v).1 h k) [
        | inl (e, has) ↦
            subst (λ x. elem x q.handles ≡ true) ((==_iff i h).0 e)
              (lined i (poll-Has (q.cells i) v has))
        | inr (e, has) ↦ lined h has
      ]

  pub drop_sender-IsLined : (i : ℕ) → IsLined q → IsLined (drop_sender q i)
  unfolding drop_sender
  drop_sender-IsLined i lined h k =
      elim (updated-Has q.cells i (WaitingSender.drop_sender (q.cells i)) h k) [
        | inl (e, has) ↦
            subst (λ x. elem x q.handles ≡ true) ((==_iff i h).0 e)
              (lined i (drop_sender-Has (q.cells i) has))
        | inr (e, has) ↦ lined h has
      ]

  pub clear-IsLined : IsLined q → IsLined (clear q).0
  unfolding clear
  clear-IsLined lined h k =
      let (has, out) = drop_handles-Has q.handles q.cells h k in
      let on = lined h has in cc (out, on)

module _ {M : Type 0} ⦃p : HasPriority M⦄ (q : WaitingQueue M) where
  still_active : (h : ℕ) → IsLined q → Has (q.cells h) → elem h (active_handles q) ≡ true
  still_active h lined has =
      elem-retain h (λ x. is_active (q.cells x)) q.handles (Has-active (q.cells h) has)
        (lined h has)

  pub Takes-IsLined : (m : M) → IsLined q → Takes q m → IsLined (try_take_waiting_message q).1
  Takes-IsLined m lined t = rw t.result (λ h k.
      elim (updated-Has q.cells t.handle (drop_handle (take_message (q.cells t.handle)).1).0 h k) [
        | inl (e, has) ↦ absurd (taken-Has (q.cells t.handle) has)
        | inr (e, has) ↦
            elem-middle h t.handle t.before t.after e
              (subst (λ hs. elem h hs ≡ true) t.chosen.split (still_active h lined has))
      ])

  pub try_take_waiting_message-IsLined :
      IsWaiting q → IsLined q → IsLined (try_take_waiting_message q).1
  try_take_waiting_message-IsLined w lined = elim (try_take_waiting_message-Takes q w) [
    | inl (none_active, e) ↦
        rw e (λ h k. subst (λ hs. elem h hs ≡ true) none_active (still_active h lined k))
    | inr (m, t) ↦ Takes-IsLined m lined t
  ]
