-- ===== src/Machine/Asserting.antt =====
-- Rust's unit tests as actions: a failed assertion and an `unwrap` of an error are a panic, and a test
-- that passes ends by a value.
use rdma_prototype.Base.{Bool, true, false}
use rdma_prototype.Outcome.{Outcome, ok, err, panic}
use rdma_prototype.Machine.{Exec}

module _ {S : Type 0} where
  -- `assert!` of the state
  abbrev pub assert : (S → Bool) → Exec S Unit
  assert test s = elim (test s) [ true ↦ (ok tt, s) | false ↦ (panic, s) ]

  -- `state.method().unwrap()`
  abbrev pub unwrapped : (S → Outcome S) → Exec S Unit
  unwrapped method s = elim (method s) [ ok t ↦ (ok tt, t) | _ ↦ (panic, s) ]

  -- `assert!(state.method().is_err())`
  abbrev pub refused : (S → Outcome S) → Exec S Unit
  refused method s = elim (method s) [ err e ↦ (ok tt, s) | _ ↦ (panic, s) ]

  -- A method that cannot fail.
  abbrev pub changed : (S → S) → Exec S Unit
  changed method s = (ok tt, method s)
