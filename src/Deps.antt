-- ===== src/Deps.antt =====
-- The crates `catty` (one-shot channels) and `event-listener`, which the channel calls and the
-- repository does not hold. They are parameters, with what their documentation promises as laws.
use xtra.Prelude.{ℕ, ◌≡◌, Bool, true, false, Option, none, some}
use xtra.Std.{Waker}

-- What a one-shot channel shows: nothing sent yet, a value not yet taken, a receiver that is gone or
-- has its value, a sender dropped with nothing sent.
pub data Look (T : Type 0) : Type 0 where
  open_look : Look T
  holding : T → Look T
  closed : Look T
  hung_up : Look T

module _ {T : Type 0} where
  -- What `send` gives back.
  abbrev pub refused : Look T → T → Option T
  refused open_look t = none
  refused _ t = some t

  abbrev pub after_send : Look T → T → Look T
  after_send open_look t = holding t
  after_send l t = l

  -- What the receiver gets: `some (some t)` a value, `some none` an error, `none` nothing yet.
  abbrev pub received : Look T → Option (Option T)
  received open_look = none
  received (holding t) = some (some t)
  received closed = some none
  received hung_up = some none

  abbrev pub after_recv : Look T → Look T
  after_recv open_look = open_look
  after_recv _ = closed

-- `catty::oneshot`. The state stands for both halves of one channel.
pub record Oneshot (T : Type 0) : Type 1 where
  pub State : Type 0
  pub fresh : State
  pub look : State → Look T
  -- `Sender::send`, which consumes the sender; the option is the value of its `Err`
  pub send : State → T → Option T × State
  -- one poll of the `Receiver`, and `Receiver::try_recv`
  pub poll : State → Waker → Option (Option T) × State
  pub try_recv : State → Option (Option T) × State
  pub drop_receiver : State → State
  pub look-fresh : look fresh ≡ open_look
  pub send-refused : (s : State) (t : T) → (send s t).0 ≡ refused (look s) t
  pub send-look : (s : State) (t : T) → look (send s t).1 ≡ after_send (look s) t
  pub poll-received : (s : State) (w : Waker) → (poll s w).0 ≡ received (look s)
  pub poll-look : (s : State) (w : Waker) → look (poll s w).1 ≡ after_recv (look s)
  pub try_recv-received : (s : State) → (try_recv s).0 ≡ received (look s)
  pub try_recv-look : (s : State) → look (try_recv s).1 ≡ after_recv (look s)
  pub drop_receiver-look : (s : State) → look (drop_receiver s) ≡ closed

-- `event_listener::Event` with the listeners made from it, each by a number.
pub record EventListeners : Type 1 where
  pub Event : Type 0
  pub fresh : Event
  -- `listen`, and `notify(usize::MAX)`
  pub listen : Event → ℕ × Event
  pub notify_all : Event → Event
  -- whether a poll of this listener is ready
  pub notified : Event → ℕ → Bool
  -- which numbers are those of listeners
  pub listening : Event → ℕ → Bool
  pub listen-new : (e : Event) → listening e (listen e).0 ≡ false
  pub listen-listening : (e : Event) → listening (listen e).1 (listen e).0 ≡ true
  pub listen-pending : (e : Event) → notified (listen e).1 (listen e).0 ≡ false
  pub listen-keeps :
      (e : Event) (i : ℕ)
      → listening e i ≡ true
      → (listening (listen e).1 i ≡ true) × (notified (listen e).1 i ≡ notified e i)
  pub notify_all-notified :
      (e : Event) (i : ℕ)
      → listening e i ≡ true
      → (listening (notify_all e) i ≡ true) × (notified (notify_all e) i ≡ true)
