-- ===== src/Transport/Connection/Dropping.antt =====
-- What is left of a connection after `Connection::close`, and what its drop adds to it.
use rdma_prototype.Base.{◌≡◌, refl, [], none, arith, ◌⊎◌, inl, inr}
use rdma_prototype.Outcome.{Outcome, ok, err, panic, unfinished}
use rdma_prototype.Ffi.{null}
use rdma_prototype.Machine.{Machine, At, Env}
use rdma_prototype.Transport.Handle.Plan.{Fails, Ran-done, Ran-ends}
use rdma_prototype.Transport.Slot
use rdma_prototype.Transport.Connection.{Connection}
use rdma_prototype.Transport.Connection.Close.{close, after_close, drop}
use rdma_prototype.Transport.Connection.Teardown.{plan, after_shutdown, close-Ran}

-- Nothing is held any more.
pub record IsCleared (c : Connection) : Type 0 where
  pub ep : c.ep ≡ null
  pub tx_cq : c.tx_cq ≡ null
  pub rx_cq : c.rx_cq ≡ null
  pub tx_op : c.tx.op ≡ null
  pub tx_mr : c.tx.mr ≡ null
  pub tx_bytes : c.tx.bytes ≡ none
  pub rx_op : c.rx.op ≡ null
  pub rx_mr : c.rx.mr ≡ null
  pub rx_bytes : c.rx.bytes ≡ none
  pub eq : c.eq ≡ null
  pub domain : c.domain ≡ null

plan-IsCleared : (c : Connection) → plan c ≡ [] → IsCleared c
plan-IsCleared c h = ground arith

IsCleared-plan : (c : Connection) → IsCleared c → plan c ≡ []
IsCleared-plan c h = ground arith

module _ (M : Machine) where
  IsCleared-after_shutdown :
      (s : At M Connection) → IsCleared s.self → after_shutdown M s ≡ s.env.trace
  IsCleared-after_shutdown s h = ground arith

  -- A `close` that succeeds leaves no handle and no buffer.
  pub close-IsCleared : (s : At M Connection) → (close M s).0 ≡ ok tt → IsCleared (close M s).1.self
  close-IsCleared s h = plan-IsCleared (close M s).1.self (
      Ran-done (plan s.self) (after_shutdown M s) (close M s).1.env.trace _
        (rw h at (close-Ran M s)))

  -- Two buffers that are gone are not released again.
  drop_outcome :
      (r : Outcome Unit) (t : At M Connection)
      → (r ≡ ok tt → IsCleared t.self)
      → (r ≡ ok tt) ⊎ Fails r
      → let left = after_close M r t.self in
        (Slot.drop_bytes M left.rx.bytes (Slot.drop_bytes M left.tx.bytes t.env).1).1 ≡ t.env
  unfolding after_close Slot.drop_bytes
  drop_outcome (ok u) t h e = rw ((h refl).tx_bytes, (h refl).rx_bytes) refl
  drop_outcome (err x) t h e = refl
  drop_outcome panic t h e = elim e [ inl bad ↦ cc | inr bad ↦ absurd bad ]
  drop_outcome unfinished t h e = elim e [ inl bad ↦ cc | inr bad ↦ absurd bad ]

  -- The drop of a connection does exactly what its `close` does: after a success no buffer is
  -- left to release, and after a failure the buffers that are left are kept until the process
  -- exits.
  pub drop-eq-close :
      (c : Connection) (e : Env M) → drop M c e ≡ (close M (record { self = c; env = e })).1.env
  unfolding drop
  drop-eq-close c e =
      let s : At M Connection = record { self = c; env = e } in
      drop_outcome (close M s).0 (close M s).1 (close-IsCleared s) (
        Ran-ends (plan c) (after_shutdown M s) (close M s).1.env.trace (close M s).0 _
          (close-Ran M s))

  -- A second `close` after a success succeeds too, and makes no call.
  pub close-close :
      (s : At M Connection)
      → (close M s).0 ≡ ok tt
      → let t = (close M s).1 in ((close M t).1.env.trace ≡ t.env.trace) × ((close M t).0 ≡ ok tt)
  close-close s h =
      let t = (close M s).1 in
      let c = close-IsCleared s h in
      let again = rw (IsCleared-plan t.self c, IsCleared-after_shutdown t c) at (close-Ran M t) in
      (again.0, again.1)
