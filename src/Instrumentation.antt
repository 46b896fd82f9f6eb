-- ===== src/Instrumentation.antt =====
-- xtra/src/instrumentation/stub.rs, which is compiled without the feature `instrumentation`.
use xtra.Prelude.{Bool, true}

pub data Span : Type 0 where
  span : Span

pub data Instrumentation : Type 0 where
  instrumentation : Instrumentation

-- `Span::in_scope`
abbrev pub in_scope {ℓ} : {R : Type ℓ} → Span → (Unit {0} → R) → R
in_scope s f = f tt

-- `Span::none` and `Span::is_none`
abbrev pub no_span : Span
no_span = span

abbrev pub is_none : Span → Bool
is_none s = true

-- `Instrumentation::empty`, `started`, `is_parent_none` and `apply`
abbrev pub empty : Instrumentation
empty = instrumentation

abbrev pub started : Instrumentation
started = empty

abbrev pub is_parent_none : Instrumentation → Bool
is_parent_none i = true

abbrev pub apply {ℓ} : {F : Type ℓ} → Instrumentation → F → F × Span
apply i fut = (fut, span)
