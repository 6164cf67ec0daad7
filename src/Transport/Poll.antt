-- ===== src/Transport/Poll.antt =====
-- src/transport.rs: `poll_eq`, `poll_cq`, `error_text` and `finish`.
use rdma_prototype.Base.{
  ℕ, List, [], ◌∷◌, Option, none, some, ◌==◌, is_zero, is_negative, if◌then◌else◌,
}
use rdma_prototype.Outcome.{err, eq_error, cq_error, cleanup, Result, value, error}
use rdma_prototype.Ffi.{Ptr, ConnectEvent, Completion}
use rdma_prototype.Machine.{
  Machine, Env, Exec, pure, raise, ◌>>=◌, ◌>>◌, check, do_eq_poll, do_cq_poll,
}

-- The bytes before the first NUL; the lossy decoding into a `String` is left to the reader.
unfoldable pub error_text : List ℕ → List ℕ
error_text [] = []
error_text (c ∷ text) = if c == 0 then [] else c ∷ error_text text

module _ (M : Machine) where
  unfoldable pub poll_eq : Ptr → Exec (Env M) (Option ConnectEvent)
  unfolding check
  poll_eq eq = do
    polled ← do_eq_poll M eq
    let ret = polled.0
    let event = polled.1
    if is_zero ret then pure none else do
      if is_negative ret then raise (check M ret "shim_eq_poll") else pure tt
      if is_zero event.err
          then pure (some event)
          else raise (err (eq_error event.err event.prov_err (error_text event.message)))

  unfoldable pub poll_cq : Ptr → Exec (Env M) (Option Completion)
  unfolding check
  poll_cq cq = do
    polled ← do_cq_poll M cq
    let ret = polled.0
    let done = polled.1
    if is_zero ret then pure none else do
      if is_negative ret then raise (check M ret "shim_cq_poll") else pure tt
      if is_zero done.err
          then pure (some done)
          else raise (err (cq_error done.op_id done.err done.prov_err (error_text done.message)))

-- `finish(result, cleanup)`
unfoldable pub finish : Result Unit → Result Unit → Result Unit
finish (error e) (error c) = error (cleanup e c)
finish (error e) (value _) = error e
finish (value _) (error c) = error c
finish (value _) (value _) = value tt
