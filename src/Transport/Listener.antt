-- ===== src/Transport/Listener.antt =====
-- src/transport.rs: the methods of `Listener`.
use rdma_prototype.Base.{
  ℕ, zero, suc, ◌+◌, false, ◌&&◌, not, Option, none, some, ltb, ◌==◌, if◌then◌else◌,
}
use rdma_prototype.Outcome.{err, unfinished, message, listener_event}
use rdma_prototype.Ffi.{
  null, is_null, eq_open, listener_open, listener_close, eq_close, event_connreq, ConnectEvent,
}
use rdma_prototype.Machine.{
  Machine, At, Env, Exec, pure, raise, ◌>>=◌, ◌>>◌, zoom, me, construct, drop_by, do_now, do_sleep,
}
use rdma_prototype.Transport.Handle.{close_handle, open_into}
use rdma_prototype.Transport.Poll.{poll_eq}
use rdma_prototype.Transport.Info.{Info}
use rdma_prototype.Transport.Fabric.{Fabric}
use rdma_prototype.Transport.Request.{Listener, Request}

-- `Duration::from_millis(1)`, in nanoseconds.
abbrev pub millisecond : ℕ
millisecond = 1000000

module _ (M : Machine) where
  unfoldable pub close : Exec (At M Listener) Unit
  unfolding close_handle
  close = do
    zoom M (λ l. l.raw) (λ p l. record l { raw = p })
        (close_handle M listener_close "shim_listener_close")
    zoom M (λ l. l.eq) (λ p l. record l { eq = p }) (close_handle M eq_close "shim_eq_close")

  unfoldable pub drop : Listener → Env M → Env M
  unfolding close
  drop = drop_by M close

  unfoldable pub bind : Fabric → Info → Exec (Env M) Listener
  unfolding drop open_into construct
  bind fabric info =
      construct M (record { fabric = fabric; eq = null; raw = null }) drop
        do
          open_into M (λ p l. record l { eq = p }) (eq_open fabric.raw) "shim_eq_open"
          l ← me M
          open_into M (λ p l. record l { raw = p }) (listener_open fabric.raw info.raw l.eq)
              "shim_listener_open"

  -- What `poll` makes of an event.
  unfoldable pub accept_event : Listener → Option ConnectEvent → Exec (Env M) (Option Request)
  accept_event l none = pure none
  accept_event l (some event) =
      if event.event_type == event_connreq && not (is_null event.info)
      then pure
          (some (record { listener = l; info = record { raw = event.info }; handled = false }))
      else raise (err (listener_event event.event_type event.err))

  unfoldable pub poll : Listener → Exec (Env M) (Option Request)
  unfolding poll_eq accept_event
  poll l =
      if is_null l.raw
      then raise (err (message "listener is closed"))
      else do polled ← poll_eq M l.eq; accept_event l polled

  -- The loop of `wait_request`, on fuel.
  unfoldable pub wait_until : ℕ → ℕ → Listener → Exec (Env M) Request
  wait_until zero deadline l = raise unfinished
  wait_until (suc fuel) deadline l = do
    t ← do_now M
    if ltb t deadline
        then (do
          polled ← poll l
          elim polled [
            | some request ↦ pure request
            | none ↦ do do_sleep M millisecond; wait_until fuel deadline l
          ])
        else raise (err (message "timeout waiting for a connection request"))

  unfoldable pub wait_request : ℕ → Listener → ℕ → Exec (Env M) Request
  unfolding wait_until
  wait_request fuel l timeout = do start ← do_now M; wait_until fuel (start + timeout) l
