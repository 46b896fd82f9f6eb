-- ===== src/Examples.antt =====
-- Concrete data for the tests: a one-shot channel and listeners that keep what `catty` and
-- `event-listener` document, messages, and some states that a channel with room for one message comes
-- to.
pub mod Channel
pub mod Pointers
pub mod Futures
pub mod Lagging
pub mod NoRoom
pub mod Late
pub mod Actors
pub mod Sending
pub mod Beside
use xtra.Prelude.{
  ℕ, suc, ◌≡◌, refl, Bool, true, false, Option, none, some, List, [], ◌∷◌, arith, ltb, ◌==◌, ==_iff,
  update,
}
use xtra.Deps.{
  Look, open_look, closed, Oneshot, EventListeners, refused, after_send, received, after_recv,
}
use xtra.Envelope.{MessageToOne, MessageToAll, concrete}
use xtra.Instrumentation
use xtra.WaitingReceiver.{CtrlMsg}
use xtra.Chan.State.{Deps, Chan}
use xtra.Chan.Methods.{
  new, on_sender_created, on_receiver_created, new_broadcast_mailbox, queue_to_one, queue_to_all,
  try_recv,
}
use xtra.Chan.Steps.{
  Steps, here, next, sender_created, receiver_created, mailbox_created, sends_to_one, sends_to_all,
  receives,
}

abbrev pub plain_oneshot : (T : Type 0) → Oneshot T
plain_oneshot T = record {
  State = Look T;
  fresh = open_look;
  look = λ s. s;
  send = λ s t. (refused s t, after_send s t);
  poll = λ s w. (received s, after_recv s);
  try_recv = λ s. (received s, after_recv s);
  drop_receiver = λ s. closed;
  look-fresh = refl;
  send-refused = λ s t. refl;
  send-look = λ s t. refl;
  poll-received = λ s w. refl;
  poll-look = λ s w. refl;
  try_recv-received = λ s. refl;
  try_recv-look = λ s. refl;
  drop_receiver-look = λ s. refl;
}

-- The number of the next listener, and which are notified.
pub record Listeners : Type 0 where
  pub made : ℕ
  pub notified : ℕ → Bool

pub not_below : (n : ℕ) → ltb n n ≡ false
not_below n = ground arith

pub below_suc : (n : ℕ) → ltb n (suc n) ≡ true
below_suc n = ground arith

pub still_below : (n i : ℕ) → ltb i n ≡ true → ltb i (suc n) ≡ true
still_below n i h = ground (arith, h)

pub below_differs : (n i : ℕ) → ltb i n ≡ true → (n == i) ≡ false
below_differs n i h = ground arith

abbrev pub plain_events : EventListeners
plain_events = record {
  Event = Listeners;
  fresh = record { made = 0; notified = λ i. false };
  listen = λ e. (e.made, record { made = suc e.made; notified = update e.notified e.made false });
  notify_all = λ e. record e { notified = λ i. true };
  notified = λ e i. e.notified i;
  listening = λ e i. ltb i e.made;
  listen-new = λ e. not_below e.made;
  listen-listening = λ e. below_suc e.made;
  listen-pending = λ e. rw ((==_iff e.made e.made).1 refl) refl;
  listen-keeps = λ e i h. (still_below e.made i h, rw (below_differs e.made i h) refl);
  notify_all-notified = λ e i h. (h, refl);
}

abbrev pub deps : Deps ℕ
deps = record { oneshot = plain_oneshot (CtrlMsg ℕ); events = plain_events }

abbrev pub message : ℕ → ℕ → MessageToOne ℕ
message m p = record {
  message = m;
  result_sender = 0;
  priority = p;
  instrumentation = Instrumentation.empty;
}

abbrev pub announcement : ℕ → ℕ → MessageToAll ℕ
announcement m p =
    concrete (record { message = m; priority = p; instrumentation = Instrumentation.empty })

-- A channel with room for one message, a sender, a receiver and its mailbox.
abbrev pub connected : Chan deps
connected = (new_broadcast_mailbox (on_receiver_created (on_sender_created (new deps (some 1))))).1

abbrev pub to_connected : Steps (new deps (some 1)) connected
to_connected = next (next (next here sender_created) receiver_created) mailbox_created

-- Two messages were sent to one actor, the second of which waits, and a broadcast.
abbrev pub busy : Chan deps
busy =
    (queue_to_all (queue_to_one (queue_to_one connected (message 7 0)).1 (message 8 1)).1
      (announcement 9 0)).1

abbrev pub to_busy : Steps (new deps (some 1)) busy
to_busy =
    next (next (next to_connected (sends_to_one (message 7 0))) (sends_to_one (message 8 1)))
      (sends_to_all (announcement 9 0))

-- A receiver waits for a message.
abbrev pub idle : Chan deps
idle = (try_recv connected 0).1

abbrev pub to_idle : Steps (new deps (some 1)) idle
to_idle = next to_connected (receives 0)
