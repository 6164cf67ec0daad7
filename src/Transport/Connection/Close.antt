-- ===== src/Transport/Connection/Close.antt =====
-- src/transport.rs: `Connection::close` and the drop of a connection.
use rdma_prototype.Base.{true, false, ◌&&◌, not, none, if◌then◌else◌}
use rdma_prototype.Outcome.{Outcome, ok, err, panic, unfinished}
use rdma_prototype.Ffi.{is_null, shutdown, endpoint_close, cq_close, eq_close, domain_close}
use rdma_prototype.Machine.{
  Machine, At, Env, Exec, pure, ◌>>=◌, ◌>>◌, in_env, zoom, update, me, do_status,
}
use rdma_prototype.Transport.Handle.{close_handle}
use rdma_prototype.Transport.Slot
use rdma_prototype.Transport.Slot.{Slot}
use rdma_prototype.Transport.Connection.{Connection}

module _ (M : Machine) where
  -- The advisory shutdown, whose code is ignored.
  unfoldable pub shutdown_started : Exec (At M Connection) Unit
  shutdown_started = do
    c ← me M
    if c.cm_started && not (is_null c.ep)
        then (do
          in_env M (do_status M (shutdown c.ep))
          update M (λ c. record c { cm_started = false }))
        else pure tt

  -- The steps of `close`.
  unfoldable pub close_ep : Exec (At M Connection) Unit
  unfolding close_handle
  close_ep =
      zoom M (λ c. c.ep) (λ p c. record c { ep = p })
        (close_handle M endpoint_close "shim_endpoint_close")

  unfoldable pub close_tx_cq : Exec (At M Connection) Unit
  unfolding close_handle
  close_tx_cq =
      zoom M (λ c. c.tx_cq) (λ p c. record c { tx_cq = p })
        (close_handle M cq_close "shim_cq_close")

  unfoldable pub close_rx_cq : Exec (At M Connection) Unit
  unfolding close_handle
  close_rx_cq =
      zoom M (λ c. c.rx_cq) (λ p c. record c { rx_cq = p })
        (close_handle M cq_close "shim_cq_close")

  unfoldable pub close_tx : Exec (At M Connection) Unit
  unfolding Slot.close
  close_tx = zoom M (λ c. c.tx) (λ s c. record c { tx = s }) (Slot.close M)

  unfoldable pub close_rx : Exec (At M Connection) Unit
  unfolding Slot.close
  close_rx = zoom M (λ c. c.rx) (λ s c. record c { rx = s }) (Slot.close M)

  unfoldable pub close_eq : Exec (At M Connection) Unit
  unfolding close_handle
  close_eq =
      zoom M (λ c. c.eq) (λ p c. record c { eq = p }) (close_handle M eq_close "shim_eq_close")

  unfoldable pub close_domain : Exec (At M Connection) Unit
  unfolding close_handle
  close_domain =
      zoom M (λ c. c.domain) (λ p c. record c { domain = p })
        (close_handle M domain_close "shim_domain_close")

  unfoldable pub close : Exec (At M Connection) Unit
  unfolding shutdown_started close_ep close_tx_cq close_rx_cq close_tx close_rx close_eq
      close_domain
  close = do
    update M (λ c. record c { closing = true })
    shutdown_started
    close_ep
    close_tx_cq
    close_rx_cq
    close_tx
    close_rx
    close_eq
    close_domain

  -- `std::mem::forget(bytes)`: the box is taken out of its slot, and its memory is never released.
  abbrev pub forget_bytes : Connection → Connection
  forget_bytes c = record c { tx = record c.tx { bytes = none }; rx = record c.rx { bytes = none } }

  -- `Drop::drop` after its `close`.
  unfoldable pub after_close : Outcome Unit → Connection → Connection
  after_close (err e) c = forget_bytes c
  after_close (ok _) c = c
  after_close panic c = c
  after_close unfinished c = c

  -- `Drop::drop`, and then the drops of the two slots.
  unfoldable pub drop : Connection → Env M → Env M
  unfolding close after_close Slot.drop_bytes
  drop c e =
      let (r, s) = close (record { self = c; env = e }) in
      let left = after_close r s.self in
      (Slot.drop_bytes M left.rx.bytes (Slot.drop_bytes M left.tx.bytes s.env).1).1
