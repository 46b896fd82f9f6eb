-- ===== src/WaitingReceiver.antt =====
-- xtra/src/chan/waiting_receiver.rs: the one-shot channel by which an idle receiver is notified. Its
-- `poll`, which may go on to the channel, is in Recv.
use xtra.Prelude.{Option, none, some}
use xtra.Envelope.{MessageToOne}
use xtra.Deps.{Oneshot}

pub data CtrlMsg (M : Type 0) : Type 0 where
  new_message : MessageToOne M → CtrlMsg M
  new_broadcast : CtrlMsg M
  shutdown : CtrlMsg M

module _ {M : Type 0} where
  -- The message in what `send` gives back. `unreachable!()` is met for no value that was sent, as
  -- `notify_new_message-refused` shows; here the message sent stands for it.
  message_in : CtrlMsg M → MessageToOne M → MessageToOne M
  message_in (new_message msg) sent = msg
  message_in new_broadcast sent = sent
  message_in shutdown sent = sent

  -- The message taken from a value that was received early, if it is one.
  cancelled : Option (Option (CtrlMsg M)) → Option (MessageToOne M)
  cancelled (some (some (new_message msg))) = some msg
  cancelled (some (some new_broadcast)) = none
  cancelled (some (some shutdown)) = none
  cancelled (some none) = none
  cancelled none = none

module _ {M : Type 0} (O : Oneshot (CtrlMsg M)) where
  -- The results of the two notifications without a message are ignored by every caller.
  unfoldable pub notify_channel_shutdown : O.State → O.State
  notify_channel_shutdown s = (O.send s shutdown).1

  unfoldable pub notify_new_broadcast : O.State → O.State
  notify_new_broadcast s = (O.send s new_broadcast).1

  -- `none` is `Ok(())`, and `some msg` is `Err(msg)`.
  unfoldable pub notify_new_message : O.State → MessageToOne M → Option (MessageToOne M) × O.State
  unfolding message_in
  notify_new_message s msg =
      let (back, s') = O.send s (new_message msg) in
      (elim back [ none ↦ none | some reason ↦ some (message_in reason msg) ], s')

  unfoldable pub cancel : O.State → Option (MessageToOne M) × O.State
  unfolding cancelled
  cancel s = let (got, s') = O.try_recv s in (cancelled got, s')
