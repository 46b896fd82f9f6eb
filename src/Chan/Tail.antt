-- ===== src/Chan/Tail.antt =====
-- `broadcast_tail` of xtra/src/chan.rs: an upper bound of the lengths of the broadcast mailboxes.
use xtra.Prelude.{
  ℕ, suc, max, ◌≤◌, ◌<◌, ◌≡◌, refl, sym, subst, inl, inr, Bool, true, false, List, [], ◌∷◌, arith,
  All, All-zip, All-retain, Distinct, Distinct-retain, Bool-cases, if◌then◌else◌,
}
use xtra.Std.{usize_mod, wrapping_inc}
use xtra.BinaryHeap
use xtra.Envelope.{MessageToAll}
use xtra.Chan.State.{Deps, Chan, Broadcasts}
use xtra.Chan.Inner.{deliver, longest, send_broadcast}
use xtra.Chan.Broadcast.{exists, Gains, Reaches, deliver-Reaches, deliver-retain}

wrapping_inc_lem : (n : ℕ) → suc n < usize_mod → wrapping_inc n ≡ suc n
wrapping_inc_lem n h = omega arith

module _ {M : Type 0} where
  -- Every mailbox of the list that still exists has at most `t` messages.
  abbrev pub Below : ℕ → (ℕ → Broadcasts M) → List ℕ → Type 0
  Below t mailboxes =
      All (λ q. exists (mailboxes q) ≡ true → BinaryHeap.len (mailboxes q).queue ≤ t)

  longest-ge : (mailboxes : ℕ → Broadcasts M) (qs : List ℕ) (n : ℕ) → n ≤ longest mailboxes qs n
  unfolding longest
  longest-ge mailboxes [] n = omega arith
  longest-ge mailboxes (q ∷ qs) n = elim (Bool-cases (exists (mailboxes q))) [
    | inl e ↦
        rw e (omega (arith, longest-ge mailboxes qs (max n (BinaryHeap.len (mailboxes q).queue))))
    | inr e ↦ rw e (longest-ge mailboxes qs n)
  ]

  longest-exists :
      (mailboxes : ℕ → Broadcasts M) (q : ℕ) (qs : List ℕ) (n : ℕ)
      → exists (mailboxes q) ≡ true
      → longest mailboxes (q ∷ qs) n
        ≡ longest mailboxes qs (max n (BinaryHeap.len (mailboxes q).queue))
  unfolding longest
  longest-exists mailboxes q qs n e = rw e refl

  longest-gone :
      (mailboxes : ℕ → Broadcasts M) (q : ℕ) (qs : List ℕ) (n : ℕ)
      → exists (mailboxes q) ≡ false
      → longest mailboxes (q ∷ qs) n ≡ longest mailboxes qs n
  unfolding longest
  longest-gone mailboxes q qs n e = rw e refl

  pub longest-Below :
      (mailboxes : ℕ → Broadcasts M) (qs : List ℕ) (n : ℕ)
      → Below (longest mailboxes qs n) mailboxes qs
  longest-Below mailboxes [] n = tt
  longest-Below mailboxes (q ∷ qs) n = elim (Bool-cases (exists (mailboxes q))) [
    | inl e ↦
        let longer = max n (BinaryHeap.len (mailboxes q).queue) in
        subst (λ t. Below t mailboxes (q ∷ qs)) (sym (longest-exists mailboxes q qs n e))
          ((λ x. omega (arith, longest-ge mailboxes qs longer)), longest-Below mailboxes qs longer)
    | inr e ↦
        subst (λ t. Below t mailboxes (q ∷ qs)) (sym (longest-gone mailboxes q qs n e))
          ((λ x. cc (x, e)), longest-Below mailboxes qs n)
  ]

  -- It is the least such bound.
  pub longest-le :
      (t : ℕ) (mailboxes : ℕ → Broadcasts M) (qs : List ℕ) (n : ℕ)
      → n ≤ t
      → Below t mailboxes qs
      → longest mailboxes qs n ≤ t
  unfolding longest
  longest-le t mailboxes [] n le below = le
  longest-le t mailboxes (q ∷ qs) n le below = elim (Bool-cases (exists (mailboxes q))) [
    | inl e ↦ rw e (
        longest-le t mailboxes qs (max n (BinaryHeap.len (mailboxes q).queue))
          (omega (arith, below.0 e)) below.1)
    | inr e ↦ rw e (longest-le t mailboxes qs n le below.1)
  ]

  -- After a message went out to every mailbox, each has one more at most.
  Reaches-le :
      (m : MessageToAll M) (b b' : Broadcasts M) (t : ℕ)
      → Reaches m b b'
      → (exists b ≡ true → BinaryHeap.len b.queue ≤ t)
      → exists b' ≡ true
      → BinaryHeap.len b'.queue ≤ suc t
  Reaches-le m b b' t r h e = elim (Bool-cases (exists b)) [
    | inl x ↦
        (let g : Gains m b b' = subst (λ y. if y then Gains m b b' else (b' ≡ b)) x r in
          omega (arith, g.len, h x))
    | inr x ↦
        (let g : b' ≡ b = subst (λ y. if y then Gains m b b' else (b' ≡ b)) x r in cc (x, e, g))
  ]

  -- The list of mailboxes and the bound, in a channel that has made `made` mailboxes.
  pub record IsListed (t made : ℕ) (mailboxes : ℕ → Broadcasts M) (qs : List ℕ) : Type 0 where
    pub numbered : All (λ q. q < made) qs
    pub distinct : Distinct qs
    pub below : Below t mailboxes qs

  deliver-IsListed :
      (m : MessageToAll M) (t made : ℕ) (mailboxes : ℕ → Broadcasts M) (qs : List ℕ)
      → IsListed t made mailboxes qs
      → IsListed (suc t) made (deliver m qs mailboxes).1 (deliver m qs mailboxes).0
  deliver-IsListed m t made mailboxes qs l =
      let live : ℕ → Bool = λ i. exists (mailboxes i) in
      let raised : Below (suc t) (deliver m qs mailboxes).1 qs =
        All-zip _ _ _ qs (λ q r h. Reaches-le m (mailboxes q) _ t r h)
          (deliver-Reaches m qs mailboxes l.distinct) l.below in
      subst (IsListed (suc t) made (deliver m qs mailboxes).1) (sym (deliver-retain m qs mailboxes))
        (record {
          numbered = All-retain _ live qs l.numbered;
          distinct = Distinct-retain live qs l.distinct;
          below = All-retain _ live qs raised;
        })

module _ {M : Type 0} {D : Deps M} where
  -- The broadcast mailboxes of a channel after `n` steps.
  pub record IsTracked (n : ℕ) (c : Chan D) : Type 0 where
    pub listed : IsListed c.broadcast_tail c.next_mailbox c.mailboxes c.broadcast_queues
    pub small : c.broadcast_tail ≤ n

  pub send_broadcast-IsTracked :
      (c : Chan D) (m : MessageToAll M) (n : ℕ)
      → suc n < usize_mod
      → IsTracked n c
      → IsTracked (suc n) (send_broadcast c m)
  unfolding send_broadcast
  send_broadcast-IsTracked c m n small t =
      let one_more : wrapping_inc c.broadcast_tail ≡ suc c.broadcast_tail =
        wrapping_inc_lem c.broadcast_tail (omega (arith, t.small)) in
      record {
        listed = rw one_more (deliver-IsListed m _ _ c.mailboxes c.broadcast_queues t.listed);
        small = rw one_more (omega (arith, t.small));
      }
