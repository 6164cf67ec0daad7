-- ===== src/Outcome.antt =====
-- How a Rust call ends. `transport::Result` has `String` for its error; a message is kept here as
-- its template with the arguments, and is not rendered.
use rdma_prototype.Base.{ℕ, String, List, ℤ}
use rdma_prototype.State.Client
use rdma_prototype.State.Server

-- One constructor for each `format!`; `message` is a literal.
pub data Error : Type 0 where
  message : String → Error
  failed : String → List ℕ → ℤ → Error
  eq_error : ℤ → ℤ → List ℕ → Error
  cq_error : ℕ → ℤ → ℤ → List ℕ → Error
  print_failed : ℤ → Error
  listener_event : ℕ → ℤ → Error
  connection_event : ℕ → Error
  rejection : Error → Error → Error
  cleanup : Error → Error → Error
  unexpected_reply : List ℕ → Error
  unexpected_message : Server.Phase → List ℕ → Error
  client_timeout : Client.Exchange → Error
  server_timeout : Server.Exchange → Error

-- `panic` is an `unwrap` of `None` or a slice index out of bounds. `unfinished` is a loop of the
-- model that ran out of fuel.
pub data Outcome (A : Type 0) : Type 0 where
  ok : A → Outcome A
  err : Error → Outcome A
  panic : Outcome A
  unfinished : Outcome A

-- The call came to its end, by a value or an error.
abbrev pub Returns : {A : Type 0} → Outcome A → Type 0
Returns (ok a) = Unit
Returns (err e) = Unit
Returns panic = ⊥
Returns unfinished = ⊥

-- `transport::Result`, where the code holds one as a value instead of returning it by `?`.
pub data Result (A : Type 0) : Type 0 where
  value : A → Result A
  error : Error → Result A

-- `value?` in a function that has no state.
abbrev pub and_then : {A B : Type 0} → Outcome A → (A → Outcome B) → Outcome B
and_then (ok a) f = f a
and_then (err e) f = err e
and_then panic f = panic
and_then unfinished f = unfinished

pub and_then-Returns :
    {A B : Type 0} (r : Outcome A) (f : A → Outcome B)
    → Returns r
    → ((a : A) → Returns (f a))
    → Returns (and_then r f)
and_then-Returns (ok a) f h k = k a
and_then-Returns (err e) f h k = tt
and_then-Returns panic f h k = absurd h
and_then-Returns unfinished f h k = absurd h
