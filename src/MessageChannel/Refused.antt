-- ===== src/MessageChannel/Refused.antt =====
-- Messages that are sent to an actor that is gone, through the addresses of xtra/src/address.rs and the
-- message channels of xtra/src/message_channel.rs.
use xtra.Prelude.{ℕ, suc, ◌<◌, ◌≤◌, ◌≡◌, ◌≢◌, refl, ◌∙◌, false}
use xtra.Std.{ready, err, usize_mod, Waker}
use xtra.Error.{disconnected}
use xtra.Deps.{Oneshot}
use xtra.Chan.State.{Deps, Chan}
use xtra.Chan.Methods.{is_connected}
use xtra.Ptr.{rx}
use xtra.Ptr.Counts.{as_sender}
use xtra.Address.{Address}
use xtra.Send.{
  done, polled, send, broadcast, sending_named, broadcast_named, poll_return, poll_broadcast,
}
use xtra.Send.Refused.{clone-connected, poll_return-lost, poll_to_all-lost}
use xtra.MessageChannel
use xtra.MessageChannel.{Rc, new}
use xtra.MessageChannel.Object

module _ {M N R : Type 0} {D : Deps M} (O : Oneshot R) (wrap : N → M) where
  -- An address that is counted, beside fewer than 2^64 - 2 others, sends to a channel without a
  -- connection a message, a broadcast, and a message through a message channel. Each future answers at
  -- its first poll that the channel is disconnected, without a look at an answer of the handler, and
  -- the channel is then as it was before the future was made.
  pub send-disconnected :
      (rc : Rc) (a : Address) (c : Chan D) (n : N) (tx : ℕ) (s : O.State) (cx : Waker)
      → a.ptr.ref_counter ≢ rx
      → as_sender a.ptr.ref_counter ≤ c.sender_count
      → suc c.sender_count < usize_mod
      → is_connected c ≡ false
      → (poll_return O (send a (wrap n) tx c).0.sending s cx (send a (wrap n) tx c).1
          ≡ (polled (ready (err disconnected)), s, done, c))
        × (poll_broadcast (broadcast a (wrap n) c).0.sending cx (broadcast a (wrap n) c).1
            ≡ (polled (ready (err disconnected)), done, c))
        × (poll_return O
              (MessageChannel.send wrap (new {rc = rc} a) n tx c).0.sending
              s
              cx
              (MessageChannel.send wrap (new {rc = rc} a) n tx c).1
            ≡ (polled (ready (err disconnected)), s, done, c))
  unfolding send broadcast sending_named broadcast_named poll_broadcast MessageChannel.send new
      Object.send
  send-disconnected rc a c n tx s cx sends counted small lost =
      let (lost', undone) = clone-connected a.ptr c sends counted small lost in
      (
        poll_return-lost O _ _ s cx c _ lost' undone,
        poll_to_all-lost _ _ cx _ lost' ∙ rw undone refl,
        poll_return-lost O _ _ s cx c _ lost' undone,
      )
