-- ===== src/Select/Returns.antt =====
-- When `select` of xtra/src/lib.rs returns.
use xtra.Prelude.{ℕ, ◌≡◌, ◌≢◌, refl, Bool, true}
use xtra.Std.{ready, left, Waker}
use xtra.Envelope
use xtra.Chan.State.{Deps, Chan, ActorMessage, to_one_actor, to_all_actors, shutdown}
use xtra.Ptr.{Ptr}
use xtra.Mailbox.{Mailbox, Context, from_parts}
use xtra.Recv
use xtra.Recv.{Receiving, Message}
use xtra.Recv.Loop.{Finishes, gives, waits, poll_alone-Finishes}
use xtra.Dispatch
use xtra.Dispatch.{Finished, Handler, DispatchFuture, dispatch, dispatch_to, Ended}
use xtra.Dispatch.Progress.{dispatch-finished, dispatch-shutdown}
use xtra.Select.{
  UserFuture, selecting, returned, won, fut_first, select_either, finished, select_round,
}

module _ {M A R : Type 0} (H : Handler M A R) where
  -- Each handler is finished at its first poll.
  abbrev pub IsPrompt : Type 0
  IsPrompt =
      (act : A) (m : M) (ctx : Context) (cx : Waker)
      → (fin : Finished A R) × ((H.poll (H.handle act m ctx) cx).0 ≡ ready fin)

  dispatch-ready :
      IsPrompt
      → (msg : ActorMessage M) (act : A) (mailbox : Mailbox) (cx : Waker)
      → (e : Ended H) × ((Dispatch.poll H (dispatch H msg act mailbox) cx).0
          ≡ Dispatch.polled (ready e))
  dispatch-ready prompt (to_one_actor e) act mailbox cx =
      let (fin, h) = prompt act e.message (Dispatch.context mailbox) cx in
      (
        _,
        (dispatch-finished H e
            (record { message = e.message; priority = 0; instrumentation = e.instrumentation }) act
            mailbox cx fin refl h).0,
      )
  dispatch-ready prompt (to_all_actors (Envelope.concrete b)) act mailbox cx =
      let (fin, h) = prompt act b.message (Dispatch.context mailbox) cx in
      (
        _,
        (dispatch-finished H
            (record {
              message = b.message;
              result_sender = 0;
              priority = 0;
              instrumentation = b.instrumentation;
            })
            b act mailbox cx fin refl h).1,
      )
  dispatch-ready prompt (to_all_actors Envelope.shutdown) act mailbox cx =
      (_, (dispatch-shutdown H act mailbox cx).1)
  dispatch-ready prompt shutdown act mailbox cx = (_, (dispatch-shutdown H act mailbox cx).0)

module _ {M A R T : Type 0} {D : Deps M} (H : Handler M A R) (F : UserFuture T) (mailbox : Mailbox)
    (noop : Waker) where
  finished-left :
      (v : T) (m : Message M) (act : A) (p : Ptr) (b : ℕ) (cx : Waker) (c : Chan D)
      → IsPrompt H
      → (a : A) × ((finished H F mailbox noop p b v (Dispatch.poll H (dispatch_to H m act) cx) c).0
          ≡ returned a (left v))
  unfolding finished dispatch_to
  finished-left v m act p b cx c prompt =
      let (e, q) =
        dispatch-ready H prompt m.inner act (from_parts m.channel m.broadcast_mailbox) cx in
      (e.actor, rw (q, finished) refl)

  won-left :
      (v : T) (act : A) (r : Recv.Outcome D) (first : Bool) (cx : Waker) (d : Chan D)
      → IsPrompt H
      → Finishes D r
      → (a : A) × ((select_round H F mailbox noop first (won H F mailbox noop act v r).0 cx d).0
          ≡ returned a (left v))
  unfolding won select_round
  won-left v act r first cx d prompt (gives m e k) =
      let (a, q) = finished-left v m act m.channel m.broadcast_mailbox cx d prompt in
      (a, rw (e, won) q)
  won-left v act r first cx d prompt (waits p b rx e k) = (act, rw (e, won) refl)

  -- A `select` that polls the other future first, and finds it ready, has returned its value after
  -- the next round, if every handler is finished at its first poll: it handles at most one more
  -- message, whatever happens to the channel in between; a poll of the next message is one step.
  pub select-returns :
      (act : A) (fut : F.State) (recv : Receiving) (v : T) (first : Bool) (cx cx' : Waker)
      (c d : Chan D)
      → IsPrompt H
      → recv ≢ Recv.done
      → (F.poll fut cx).0 ≡ ready v
      → (a : A) × ((select_round H F mailbox noop first
            (select_round H F mailbox noop true (selecting act fut recv) cx c).0
            cx'
            d).0
          ≡ returned a (left v))
  unfolding select_round select_either fut_first
  select-returns act fut recv v first cx cx' c d prompt live e =
      rw (e, fut_first) (won-left v act _ first cx' d prompt (poll_alone-Finishes recv noop c live))
