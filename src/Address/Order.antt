-- ===== src/Address/Order.antt =====
-- Equality, the two orders and the hash of addresses in xtra/src/address.rs.
use xtra.Prelude.{◌≡◌, ◌≢◌, ◌↔◌, true, some, arith, Ordering}
use xtra.Ptr.{is_strong}
use xtra.Address.{Address, same_actor, eq, partial_cmp, cmp, hash, then_strength}

-- Two addresses are equal exactly when they give a hasher the same numbers, and exactly when
-- `partial_cmp` finds them equal.
pub eq_iff :
    (a b : Address)
    → ((eq a b ≡ true) ↔ (hash a ≡ hash b))
      × ((eq a b ≡ true) ↔ (partial_cmp a b ≡ some Ordering.eq))
unfolding eq same_actor hash partial_cmp then_strength
eq_iff a b = (ground arith, ground arith)

-- `Ord` and `PartialOrd` disagree on two addresses exactly when they point to the same actor and one is
-- strong and the other weak: `cmp` calls those equal.
pub cmp-partial_cmp :
    (a b : Address)
    → (some (cmp a b) ≢ partial_cmp a b)
      ↔ ((same_actor a b ≡ true) × (is_strong a.ptr ≢ is_strong b.ptr))
unfolding same_actor partial_cmp cmp then_strength
cmp-partial_cmp a b = ground arith
