-- ===== src/Envelope.antt =====
-- xtra/src/envelope.rs: messages with their priority. Of a boxed envelope the channel sees the
-- methods of its trait only, so one type of payloads `M` stands for all that an actor can receive.
use xtra.Prelude.{ℕ}
use xtra.Priority.{Priority, valued, HasPriority}
use xtra.Instrumentation.{Instrumentation}
use xtra.Instrumentation

-- `ReturningEnvelope`. `result_sender` is the identity of the one-shot channel for the answer.
pub record ReturningEnvelope (M : Type 0) : Type 0 where
  pub message : M
  pub result_sender : ℕ
  pub priority : ℕ
  pub instrumentation : Instrumentation

-- `BroadcastEnvelopeConcrete`
pub record BroadcastEnvelope (M : Type 0) : Type 0 where
  pub message : M
  pub priority : ℕ
  pub instrumentation : Instrumentation

abbrev pub MessageToOne : Type 0 → Type 0
MessageToOne = ReturningEnvelope

-- The two implementations of the trait `BroadcastEnvelope`.
pub data MessageToAll (M : Type 0) : Type 0 where
  concrete : BroadcastEnvelope M → MessageToAll M
  shutdown : MessageToAll M

module _ {M : Type 0} where
  instance abbrev pub to_one_has_priority : HasPriority (ReturningEnvelope M)
  to_one_has_priority = record { priority = λ e. valued e.priority }

  abbrev pub priority_to_all : MessageToAll M → Priority
  priority_to_all (concrete e) = valued e.priority
  priority_to_all shutdown = Priority.shutdown

  instance abbrev pub to_all_has_priority : HasPriority (MessageToAll M)
  to_all_has_priority = record { priority = priority_to_all }

  -- `ReturningEnvelope::new`, given the identity of a fresh one-shot channel
  unfoldable pub returning_envelope : M → ℕ → ℕ → ReturningEnvelope M
  returning_envelope m priority tx = record {
    message = m;
    result_sender = tx;
    priority = priority;
    instrumentation = Instrumentation.empty;
  }

  -- `BroadcastEnvelopeConcrete::new`
  unfoldable pub broadcast_envelope : M → ℕ → BroadcastEnvelope M
  broadcast_envelope m priority = record {
    message = m;
    priority = priority;
    instrumentation = Instrumentation.empty;
  }

  unfoldable pub set_priority_to_one : ReturningEnvelope M → ℕ → ReturningEnvelope M
  set_priority_to_one e p = record e { priority = p }

  unfoldable pub set_priority_to_all : MessageToAll M → ℕ → MessageToAll M
  set_priority_to_all (concrete e) p = concrete (record e { priority = p })
  set_priority_to_all shutdown p = shutdown

  -- `start_span` asserts that the span's parent is none, which `is_parent_none` always affirms.
  unfoldable pub start_span_to_one : ReturningEnvelope M → ReturningEnvelope M
  start_span_to_one e = record e { instrumentation = Instrumentation.started }

  unfoldable pub start_span_to_all : MessageToAll M → MessageToAll M
  start_span_to_all (concrete e) = concrete (record e { instrumentation = Instrumentation.started })
  start_span_to_all shutdown = shutdown
