-- ===== src/WaitingSender/Laws.antt =====
-- The life of a waiting sender: it is resolved once, its message is handed out at most once, and the
-- task that waits for it is woken when that happens.
use xtra.Prelude.{◌≡◌, Bool, true, false, some, [], ◌∷◌, arith}
use xtra.Std.{ready, pending, Result, ok, err, Waker}
use xtra.Error.{Error, disconnected}
use xtra.WaitingSender.{Cell, take_message, drop_handle, poll, drop_sender, new, is_active}

-- A cell and whether its handle still exists: both users of the handle consume it.
pub record Shared (M : Type 0) : Type 0 where
  pub cell : Cell M
  pub handle : Bool

module _ {M : Type 0} where
  -- `take_message(self)`, at whose end the handle is dropped.
  abbrev pub taken : Cell M → Cell M
  taken c = (drop_handle (take_message c).1).0

  abbrev pub without_handle : Cell M → Shared M
  without_handle c = record { cell = c; handle = false }

  -- What either side does to the shared cell.
  pub data Touch (s : Shared M) : Shared M → Type 0 where
    takes : s.handle ≡ true → Touch s (without_handle (taken s.cell))
    drops : s.handle ≡ true → Touch s (without_handle (drop_handle s.cell).0)
    polls : (w : Waker) → Touch s (record s { cell = (poll s.cell w).1 })
    leaves : Touch s (record s { cell = drop_sender s.cell })

  pub data Touches (s : Shared M) : Shared M → Type 0 where
    here : Touches s s
    next : {t u : Shared M} → Touches s t → Touch t u → Touches s u

  -- While the handle exists the cell waits: only its users resolve it.
  pub IsOpen : Shared M → Type 0
  IsOpen s = s.handle ≡ true → (w : Waker) → (poll s.cell w).0 ≡ pending

  Touch-IsOpen : {s t : Shared M} → Touch s t → IsOpen s → IsOpen t
  unfolding IsOpen poll drop_sender
  Touch-IsOpen (takes g) o h w = cc
  Touch-IsOpen (drops g) o h w = cc
  Touch-IsOpen {s} (polls v) o h w = ground (arith, o h w)
  Touch-IsOpen {s} leaves o h w = ground (arith, o h w)

  pub Touches-IsOpen : {s t : Shared M} → Touches s t → IsOpen s → IsOpen t
  Touches-IsOpen here o = o
  Touches-IsOpen (next path t) o = Touch-IsOpen t (Touches-IsOpen path o)

  pub new-IsOpen : (m : M) → IsOpen (record { cell = new m; handle = true })
  unfolding IsOpen poll new
  new-IsOpen m h w = ground arith

  Touch-poll :
      {s t : Shared M} (r : Result (Unit {0}) Error) (w : Waker)
      → Touch s t
      → IsOpen s
      → (poll s.cell w).0 ≡ ready r
      → (poll t.cell w).0 ≡ ready r
  unfolding IsOpen poll drop_sender
  Touch-poll {s} r w (takes g) o h = ground (arith, o g w)
  Touch-poll {s} r w (drops g) o h = ground (arith, o g w)
  Touch-poll {s} r w (polls v) o h = ground arith
  Touch-poll {s} r w leaves o h = ground arith

  -- Once a waiting sender has resolved, it answers the same for ever.
  pub poll-stable :
      {s t : Shared M} (r : Result (Unit {0}) Error) (w : Waker)
      → IsOpen s
      → Touches s t
      → (poll s.cell w).0 ≡ ready r
      → (poll t.cell w).0 ≡ ready r
  poll-stable r w o here h = h
  poll-stable r w o (next path t) h =
      Touch-poll r w t (Touches-IsOpen path o) (poll-stable r w o path h)

  taken_resolves :
      (c : Cell M) (w : Waker) {m : M}
      → (take_message c).0 ≡ some m
      → (poll (taken c) w).0 ≡ ready (ok tt)
  unfolding poll take_message drop_handle
  taken_resolves c w h = ground arith

  closed_resolves :
      (c : Cell M) (w : Waker) {m : M}
      → (take_message c).0 ≡ some m
      → (poll (drop_handle c).0 w).0 ≡ ready (err disconnected)
  unfolding poll take_message drop_handle
  closed_resolves c w h = ground arith

  no_handle-IsOpen : (c : Cell M) → IsOpen (without_handle c)
  unfolding IsOpen
  no_handle-IsOpen c h = cc

  -- The sender whose message was handed out learns that it was delivered, and the sender whose handle
  -- was dropped with the message in it learns that the channel is disconnected. Whatever either side
  -- does afterwards, the answer stays.
  pub handle_decides :
      (c : Cell M) (m : M) (w : Waker) {t u : Shared M}
      → (take_message c).0 ≡ some m
      → Touches (without_handle (taken c)) t
      → Touches (without_handle (drop_handle c).0) u
      → ((poll t.cell w).0 ≡ ready (ok tt)) × ((poll u.cell w).0 ≡ ready (err disconnected))
  handle_decides c m w h path path' = (
    poll-stable (ok tt) w (no_handle-IsOpen _) path (taken_resolves c w h),
    poll-stable (err disconnected) w (no_handle-IsOpen _) path' (closed_resolves c w h),
  )

  -- A task that polled a message which still waits is woken when the message is taken, and when the
  -- channel drops its handle.
  pub poll_woken :
      (c : Cell M) (w : Waker)
      → (poll c w).0 ≡ pending
      → is_active c ≡ true
      → ((take_message (poll c w).1).2 ≡ w ∷ []) × ((drop_handle (poll c w).1).1 ≡ w ∷ [])
  unfolding poll take_message drop_handle is_active
  poll_woken c w h a = ground arith
