-- ===== src/Chan/Broadcast.antt =====
-- `send_broadcast` and the broadcast mailboxes of xtra/src/chan.rs.
use xtra.Prelude.{
  ℕ, suc, ◌≡◌, refl, sym, ap, ◌∙◌, inl, inr, Bool, false, List, [], ◌∷◌, arith, All, All-mono,
  Distinct, All-zip, subst, retain, ltb, ◌==◌, ==_iff, update, Bool-cases, Perm, if◌then◌else◌,
}
use xtra.Priority.{by_priority}
use xtra.BinaryHeap
use xtra.BinaryHeap.{BinaryHeap}
use xtra.BinaryHeap.Laws.{len-push, to_list-push}
use xtra.Envelope.{MessageToAll, to_all_has_priority}
use xtra.Chan.State.{Broadcasts}
use xtra.Chan.Inner.{deliver, push_to}

retain-same : (f g : ℕ → Bool) (xs : List ℕ) → ((i : ℕ) → f i ≡ g i) → retain f xs ≡ retain g xs
retain-same f g [] e = refl
retain-same f g (x ∷ xs) e = rw (e x, retain-same f g xs e)

module _ {M : Type 0} where
  -- Whether an `Arc` of the mailbox is left.
  abbrev pub exists : Broadcasts M → Bool
  exists b = ltb 0 b.strong

  -- A mailbox before and after a message was put in.
  pub record Gains (m : MessageToAll M) (b b' : Broadcasts M) : Type 0 where
    pub strong : b'.strong ≡ b.strong
    pub content : Perm (BinaryHeap.to_list b'.queue) (by_priority m ∷ BinaryHeap.to_list b.queue)
    pub len : BinaryHeap.len b'.queue ≡ suc (BinaryHeap.len b.queue)

  push_to-Gains : (m : MessageToAll M) (b : Broadcasts M) → Gains m b (push_to b m)
  unfolding push_to
  push_to-Gains m b = record {
    strong = refl;
    content = to_list-push b.queue (by_priority m);
    len = len-push b.queue (by_priority m);
  }

  abbrev stepped : MessageToAll M → ℕ → (ℕ → Broadcasts M) → ℕ → Broadcasts M
  stepped m q mailboxes =
      if exists (mailboxes q) then update mailboxes q (push_to (mailboxes q) m) else mailboxes

  stepped-apart :
      (m : MessageToAll M) (q i : ℕ) (mailboxes : ℕ → Broadcasts M)
      → (q == i) ≡ false
      → stepped m q mailboxes i ≡ mailboxes i
  stepped-apart m q i mailboxes e = elim (Bool-cases (exists (mailboxes q))) [
    | inl x ↦ rw (x, e)
    | inr x ↦ rw x
  ]

  -- A mailbox that is not on the list is left alone.
  pub deliver-apart :
      (m : MessageToAll M) (qs : List ℕ) (mailboxes : ℕ → Broadcasts M) (i : ℕ)
      → All (λ q. (q == i) ≡ false) qs
      → (deliver m qs mailboxes).1 i ≡ mailboxes i
  unfolding deliver
  deliver-apart m [] mailboxes i apart = refl
  deliver-apart m (q ∷ qs) mailboxes i apart =
      deliver-apart m qs (stepped m q mailboxes) i apart.1 ∙ stepped-apart m q i mailboxes apart.0

  stepped-strong :
      (m : MessageToAll M) (q i : ℕ) (mailboxes : ℕ → Broadcasts M)
      → (stepped m q mailboxes i).strong ≡ (mailboxes i).strong
  unfolding push_to
  stepped-strong m q i mailboxes = elim (Bool-cases (exists (mailboxes q))) [
    | inl x ↦ elim (Bool-cases (q == i)) [ inl e ↦ rw (x, e, (==_iff q i).0 e) | inr e ↦ rw (x, e) ]
    | inr x ↦ rw x
  ]

  deliver-strong :
      (m : MessageToAll M) (qs : List ℕ) (mailboxes : ℕ → Broadcasts M) (i : ℕ)
      → ((deliver m qs mailboxes).1 i).strong ≡ (mailboxes i).strong
  unfolding deliver
  deliver-strong m [] mailboxes i = refl
  deliver-strong m (q ∷ qs) mailboxes i =
      deliver-strong m qs (stepped m q mailboxes) i ∙ stepped-strong m q i mailboxes

  -- The mailboxes that are left are kept on the list, in order.
  pub deliver-retain :
      (m : MessageToAll M) (qs : List ℕ) (mailboxes : ℕ → Broadcasts M)
      → (deliver m qs mailboxes).0 ≡ retain (λ i. exists (mailboxes i)) qs
  unfolding deliver
  deliver-retain m [] mailboxes = refl
  deliver-retain m (q ∷ qs) mailboxes = rw (
    deliver-retain m qs (stepped m q mailboxes),
    retain-same (λ i. exists (stepped m q mailboxes i)) (λ i. exists (mailboxes i)) qs
        (λ i. ap (λ n. ltb 0 n) (stepped-strong m q i mailboxes)),
  )

  -- A mailbox with an `Arc` left has gained the message once, and one without is as it was.
  abbrev pub Reaches : MessageToAll M → Broadcasts M → Broadcasts M → Type 0
  Reaches m b b' = if exists b then Gains m b b' else (b' ≡ b)

  stepped-Reaches :
      (m : MessageToAll M) (q : ℕ) (mailboxes : ℕ → Broadcasts M)
      → Reaches m (mailboxes q) (stepped m q mailboxes q)
  stepped-Reaches m q mailboxes = elim (Bool-cases (exists (mailboxes q))) [
    | inl x ↦ rw (x, (==_iff q q).1 refl) (push_to-Gains m (mailboxes q))
    | inr x ↦ rw x refl
  ]

  pub deliver-Reaches :
      (m : MessageToAll M) (qs : List ℕ) (mailboxes : ℕ → Broadcasts M)
      → Distinct qs
      → All (λ q. Reaches m (mailboxes q) ((deliver m qs mailboxes).1 q)) qs
  unfolding deliver push_to
  deliver-Reaches m [] mailboxes d = tt
  deliver-Reaches m (q ∷ qs) mailboxes d = (
    subst (Reaches m (mailboxes q))
        (sym (
          deliver-apart m qs (stepped m q mailboxes) q (
            All-mono (λ y. (q == y) ≡ false) (λ y. (y == q) ≡ false) qs (λ y e. ground (arith, e))
              d.0)))
        (stepped-Reaches m q mailboxes),
    All-zip _ _ _ qs
        (λ y e r.
          subst (λ b. Reaches m b ((deliver m qs (stepped m q mailboxes)).1 y))
            (stepped-apart m q y mailboxes e) r)
        d.0 (deliver-Reaches m qs (stepped m q mailboxes) d.1),
  )
