-- ===== src/Mailbox.antt =====
-- xtra/src/mailbox.rs and xtra/src/context.rs: the receiving end of a channel, and what a handler can
-- do with it.
pub mod StopAll
pub mod StopEveryone
use xtra.Prelude.{ℕ, Bool, true, false, Option, none, some}
use xtra.Chan.State.{Deps, Chan}
use xtra.Chan.Methods.{new_broadcast_mailbox, shutdown_all_receivers}
use xtra.Ptr
use xtra.Ptr.{Ptr, to_tx_weak}
use xtra.Address
use xtra.Address.{Address, try_upgrade}

-- The broadcast mailbox by its number.
pub record Mailbox : Type 0 where
  pub inner : Ptr
  pub broadcast_mailbox : ℕ

pub record Context : Type 0 where
  pub running : Bool
  pub mailbox : Mailbox

unfoldable pub from_parts : Ptr → ℕ → Mailbox
from_parts chan b = record { inner = chan; broadcast_mailbox = b }

-- `Mailbox::address`
abbrev pub address : Mailbox → Address
address m = record { ptr = to_tx_weak m.inner }

-- `Mailbox::bounded` with `some` capacity, and `Mailbox::unbounded`, of the channel numbered `i`
unfoldable pub create : {M : Type 0} (D : Deps M) → ℕ → Option ℕ → (Address × Mailbox) × Chan D
create D i capacity =
    let ((sender, receiver), c) = Ptr.new D i capacity in
    let (b, c') = new_broadcast_mailbox c in
    ((record { ptr = sender }, record { inner = receiver; broadcast_mailbox = b }), c')

unfoldable pub stop_self : Context → Context
stop_self ctx = record ctx { running = false }

module _ {M : Type 0} {D : Deps M} where
  unfoldable pub clone : Mailbox → Chan D → Mailbox × Chan D
  clone m c =
      let (p, c') = Ptr.clone m.inner c in
      let (b, c'') = new_broadcast_mailbox c' in (record { inner = p; broadcast_mailbox = b }, c'')

  -- What `stop_all` does with the address that it has upgraded, which is dropped at the end.
  unfoldable pub stop_through : Option Address × Chan D → Chan D
  stop_through (none, c) = c
  stop_through (some address, c) = Address.drop address (shutdown_all_receivers c)

  -- `Context::stop_all`
  unfoldable pub stop_all : Context → Chan D → Chan D
  unfolding stop_through
  stop_all ctx c = stop_through (try_upgrade (address ctx.mailbox) c)
