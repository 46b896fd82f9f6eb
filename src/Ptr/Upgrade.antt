-- ===== src/Ptr/Upgrade.antt =====
-- The loop of `TxStrong::try_new` in xtra/src/chan/ptr.rs among the steps of others.
use xtra.Prelude.{
  ℕ, ◌≡◌, refl, sym, subst, if◌then◌else◌, ◌⊎◌, inl, inr, Bool, true, false, Option, none, some,
  List, [], ◌∷◌, arith, ◌==◌, Bool-cases, ==_iff,
}
use xtra.Std.{wrapping_inc}
use xtra.Ptr.{attempt, try_new_loop}

-- `k` is the count that some round comes upon.
abbrev pub Seen : ℕ → List (Bool × ℕ) → Type 0
Seen k [] = ⊥
Seen k ((spurious, count) ∷ rounds) = (k ≡ count) ⊎ Seen k rounds

-- What the loop that first read `n` may end with: nothing yet; refusal, after a count of 0 was read;
-- or success in a round that came upon a count other than 0, which it has raised by one.
pub Answers : ℕ → List (Bool × ℕ) → Option (Bool × ℕ) → Type 0
Answers n rounds none = Unit
Answers n rounds (some (false, after)) = (n ≡ 0) ⊎ Seen 0 rounds
Answers n rounds (some (true, after)) =
    (k : ℕ) × Seen k rounds × ((k == 0) ≡ false) × (after ≡ wrapping_inc k)

Answers-cons :
    (n count : ℕ) (spurious : Bool) (rounds : List (Bool × ℕ)) (r : Option (Bool × ℕ))
    → Answers count rounds r
    → Answers n ((spurious, count) ∷ rounds) r
unfolding Answers
Answers-cons n count spurious rounds none h = tt
Answers-cons n count spurious rounds (some (false, after)) (inl e) = inr (inl (sym e))
Answers-cons n count spurious rounds (some (false, after)) (inr s) = inr (inr s)
Answers-cons n count spurious rounds (some (true, after)) (k, s, nz, e) = (k, inr s, nz, e)

nothing_yet : (n : ℕ) → try_new_loop n [] ≡ none
unfolding try_new_loop
nothing_yet n = refl

-- One round of the loop.
round-refused :
    (n count : ℕ) (spurious : Bool) (rounds : List (Bool × ℕ))
    → (n == 0) ≡ true
    → try_new_loop n ((spurious, count) ∷ rounds) ≡ some (false, count)
unfolding try_new_loop attempt
round-refused n count true rounds z = ground arith
round-refused n count false rounds z = ground arith

round-again :
    (n count : ℕ) (spurious : Bool) (rounds : List (Bool × ℕ))
    → (n == 0) ≡ false
    → (spurious ≡ true) ⊎ ((n == count) ≡ false)
    → try_new_loop n ((spurious, count) ∷ rounds) ≡ try_new_loop count rounds
unfolding try_new_loop attempt
round-again n count true rounds nz h = ground arith
round-again n count false rounds nz (inl e) = cc
round-again n count false rounds nz (inr e) = ground arith

round-upgraded :
    (n count : ℕ) (rounds : List (Bool × ℕ))
    → (n == 0) ≡ false
    → (n == count) ≡ true
    → try_new_loop n ((false, count) ∷ rounds) ≡ some (true, wrapping_inc n)
unfolding try_new_loop attempt
round-upgraded n count rounds nz e = ground arith

again-Answers :
    (n count : ℕ) (spurious : Bool) (rounds : List (Bool × ℕ))
    → (n == 0) ≡ false
    → (spurious ≡ true) ⊎ ((n == count) ≡ false)
    → Answers count rounds (try_new_loop count rounds)
    → Answers n ((spurious, count) ∷ rounds) (try_new_loop n ((spurious, count) ∷ rounds))
again-Answers n count spurious rounds nz h a =
    subst (Answers n ((spurious, count) ∷ rounds)) (sym (round-again n count spurious rounds nz h))
      (Answers-cons n count spurious rounds (try_new_loop count rounds) a)

round-Answers :
    (n count : ℕ) (spurious : Bool) (rounds : List (Bool × ℕ))
    → (n == 0) ≡ false
    → Answers count rounds (try_new_loop count rounds)
    → Answers n ((spurious, count) ∷ rounds) (try_new_loop n ((spurious, count) ∷ rounds))
unfolding Answers
round-Answers n count true rounds nz a = again-Answers n count true rounds nz (inl refl) a
round-Answers n count false rounds nz a = elim (Bool-cases (n == count)) [
  | inl e ↦
      subst (Answers n ((false, count) ∷ rounds)) (sym (round-upgraded n count rounds nz e))
        (n, inl ((==_iff n count).0 e), nz, refl)
  | inr e ↦ again-Answers n count false rounds nz (inr e) a
]

-- Whatever the others do to the count between the rounds, the loop gives a strong reference only in a
-- round that comes upon a count other than 0, which it raises by one, and refuses only after the count
-- was read as 0: it acts like the one step at the moment of some round.
pub try_new_loop-Answers :
    (n : ℕ) (rounds : List (Bool × ℕ)) → Answers n rounds (try_new_loop n rounds)
unfolding Answers
try_new_loop-Answers n [] = subst (Answers n []) (sym (nothing_yet n)) tt
try_new_loop-Answers n ((spurious, count) ∷ rounds) = elim (Bool-cases (n == 0)) [
  | inl z ↦
      subst (Answers n ((spurious, count) ∷ rounds)) (sym (round-refused n count spurious rounds z))
        (inl ((==_iff n 0).0 z))
  | inr nz ↦ round-Answers n count spurious rounds nz (try_new_loop-Answers count rounds)
]

-- With nobody in between, the second round answers at the latest, unless it fails for no reason.
pub try_new_loop-alone :
    (n count : ℕ) (spurious : Bool)
    → try_new_loop n ((spurious, count) ∷ (false, count) ∷ (false, count) ∷ []) ≡ (
        if n == 0
        then some (false, count)
        else if spurious
        then (if count == 0 then some (false, count) else some (true, wrapping_inc count))
        else if n == count
        then some (true, wrapping_inc n)
        else if count == 0
        then some (false, count)
        else some (true, wrapping_inc count))
unfolding try_new_loop attempt
try_new_loop-alone n count spurious = ground arith
