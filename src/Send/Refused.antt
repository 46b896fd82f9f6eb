-- ===== src/Send/Refused.antt =====
-- What the futures of xtra/src/send_future.rs do when the actor is gone.
use xtra.Prelude.{suc, ◌<◌, ◌≤◌, ◌≡◌, ◌≢◌, refl, ap, ◌∙◌, false, arith}
use xtra.Std.{ready, err, usize_mod, Waker}
use xtra.Error.{disconnected}
use xtra.Deps.{Oneshot}
use xtra.Envelope.{MessageToOne, MessageToAll}
use xtra.Chan.State.{Deps, Chan}
use xtra.Chan.Methods.{is_connected, on_sender_created, try_send_to_one, try_send_to_all}
use xtra.Ptr
use xtra.Ptr.{Ptr, RefCounter, strong, weak, tx_strong, tx_weak, tx_either, rx, make_new, destroy}
use xtra.Ptr.Counts.{as_sender}
use xtra.Ptr.Undo.{clone-drop}
use xtra.Send.{
  new, done, polled, poll_to_one, poll_to_all, sent_to_one, sent_to_all, poll_return, after_sending,
}

module _ {M : Type 0} {D : Deps M} where
  created-connected :
      (c : Chan D)
      → 1 ≤ c.sender_count
      → suc c.sender_count < usize_mod
      → is_connected c ≡ false
      → is_connected (on_sender_created c) ≡ false
  unfolding is_connected on_sender_created
  created-connected c some_left small lost = ground arith

  make_new-connected :
      (r : RefCounter) (c : Chan D)
      → r ≢ rx
      → as_sender r ≤ c.sender_count
      → suc c.sender_count < usize_mod
      → is_connected c ≡ false
      → is_connected (make_new r c).1 ≡ false
  unfolding make_new
  make_new-connected tx_strong c sends counted small lost = created-connected c counted small lost
  make_new-connected tx_weak c sends counted small lost = lost
  make_new-connected (tx_either strong) c sends counted small lost =
      created-connected c counted small lost
  make_new-connected (tx_either weak) c sends counted small lost = lost
  make_new-connected rx c sends counted small lost = absurd (sends refl)

  try_send_to_one-lost :
      (c : Chan D) (msg : MessageToOne M)
      → is_connected c ≡ false
      → try_send_to_one c msg ≡ (err disconnected, c)
  unfolding try_send_to_one
  try_send_to_one-lost c msg lost = rw lost refl

  try_send_to_all-lost :
      (c : Chan D) (msg : MessageToAll M)
      → is_connected c ≡ false
      → try_send_to_all c msg ≡ (err disconnected, c)
  unfolding try_send_to_all
  try_send_to_all-lost c msg lost = rw lost refl

  poll_to_one-lost :
      (p : Ptr) (msg : MessageToOne M) (cx : Waker) (c : Chan D)
      → is_connected c ≡ false
      → poll_to_one (new msg p) cx c ≡ (polled (ready (err disconnected)), done, Ptr.drop p c)
  unfolding poll_to_one sent_to_one
  poll_to_one-lost p msg cx c lost = rw (try_send_to_one-lost c msg lost) refl

  pub poll_to_all-lost :
      (p : Ptr) (msg : MessageToAll M) (cx : Waker) (c : Chan D)
      → is_connected c ≡ false
      → poll_to_all (new msg p) cx c ≡ (polled (ready (err disconnected)), done, Ptr.drop p c)
  unfolding poll_to_all sent_to_all
  poll_to_all-lost p msg cx c lost = rw (try_send_to_all-lost c msg lost) refl

module _ {M : Type 0} {D : Deps M} (p : Ptr) (c : Chan D) where
  pub clone-connected :
      p.ref_counter ≢ rx
      → as_sender p.ref_counter ≤ c.sender_count
      → suc c.sender_count < usize_mod
      → is_connected c ≡ false
      → (is_connected (Ptr.clone p c).1 ≡ false)
        × (Ptr.drop (Ptr.clone p c).0 (Ptr.clone p c).1 ≡ c)
  unfolding Ptr.clone
  clone-connected sends counted small lost =
      let (same, undone) = clone-drop p c sends counted small in
      (
        make_new-connected p.ref_counter c sends counted small lost,
        ap (λ q. Ptr.drop q (Ptr.clone p c).1) same ∙ undone,
      )

module _ {M R : Type 0} {D : Deps M} (O : Oneshot R) where
  pub poll_return-lost :
      (p : Ptr) (msg : MessageToOne M) (s : O.State) (cx : Waker) (c d : Chan D)
      → is_connected d ≡ false
      → Ptr.drop p d ≡ c
      → poll_return O (new msg p) s cx d ≡ (polled (ready (err disconnected)), s, done, c)
  unfolding poll_return after_sending
  poll_return-lost p msg s cx c d lost u = rw (poll_to_one-lost p msg cx d lost, u) refl
