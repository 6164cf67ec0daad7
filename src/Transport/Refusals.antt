-- ===== src/Transport/Refusals.antt =====
-- src/transport.rs: no drop takes an EAGAIN answer out of the trace.
use rdma_prototype.Base.{◌≤◌, List, [], ◌∷◌, Option, inl, inr, arith}
use rdma_prototype.Outcome.{Outcome}
use rdma_prototype.Machine.{Machine, At, Env, Call}
use rdma_prototype.Machine.Clock.{refusals, Grown}
use rdma_prototype.Transport.Handle.Plan.{Step, close, free, Ran}
use rdma_prototype.Transport.Handle.{close_handle}
use rdma_prototype.Transport.Info
use rdma_prototype.Transport.Info.{Info}
use rdma_prototype.Transport.Fabric
use rdma_prototype.Transport.Fabric.{Fabric}
use rdma_prototype.Transport.Request.{Listener}
use rdma_prototype.Transport.Listener
use rdma_prototype.Transport.Slot
use rdma_prototype.Transport.Connection.{Connection}
use rdma_prototype.Transport.Connection.Close
use rdma_prototype.Transport.Connection.Teardown.{plan, after_shutdown, close-Ran}

module _ (M : Machine) where
  -- A plan only adds to the trace.
  Ran-Grown :
      (p : List Step) (old new : List Call) (r : Outcome Unit) (left : List Step)
      → Ran p old new r left
      → refusals M old ≤ refusals M new
  Ran-Grown [] old new r left h = rw h.0 (omega arith)
  Ran-Grown (free x ∷ p) old new r left h = omega (arith, Ran-Grown p _ new r left h)
  Ran-Grown (close c ∷ p) old new r left h = elim h [
    | inl (code, bad, made, rest, e) ↦ rw made (omega arith)
    | inr rest ↦ omega (arith, Ran-Grown p _ new r left rest)
  ]

  after_shutdown-Grown :
      (s : At M Connection) → refusals M s.env.trace ≤ refusals M (after_shutdown M s)
  after_shutdown-Grown s = ground arith

  close-Grown : (s : At M Connection) → Grown M s.env (Close.close M s).1.env
  close-Grown s = omega (
    arith,
    after_shutdown-Grown s,
    Ran-Grown (plan s.self) (after_shutdown M s) (Close.close M s).1.env.trace (Close.close M s).0 _
        (close-Ran M s),
  )

  drop_bytes-Grown : (b : Option Slot.Bytes) (e : Env M) → Grown M e (Slot.drop_bytes M b e).1
  unfolding Slot.drop_bytes
  drop_bytes-Grown b e = ground arith

  pub drop-Grown : (c : Connection) (e : Env M) → Grown M e (Close.drop M c e)
  unfolding Close.drop
  drop-Grown c e =
      let closed = Close.close M (record { self = c; env = e }) in
      let left = Close.after_close M closed.0 closed.1.self in
      omega (
        arith,
        close-Grown (record { self = c; env = e }),
        drop_bytes-Grown left.tx.bytes closed.1.env,
        drop_bytes-Grown left.rx.bytes (Slot.drop_bytes M left.tx.bytes closed.1.env).1,
      )

  pub Listener_drop-Grown : (l : Listener) (e : Env M) → Grown M e (Listener.drop M l e)
  unfolding Listener.drop Listener.close close_handle
  Listener_drop-Grown l e = ground arith

  pub Fabric_drop-Grown : (f : Fabric) (e : Env M) → Grown M e (Fabric.drop M f e)
  unfolding Fabric.drop Fabric.close close_handle
  Fabric_drop-Grown f e = ground arith

  pub Info_drop-Grown : (i : Info) (e : Env M) → Grown M e (Info.drop M i e)
  unfolding Info.drop
  Info_drop-Grown i e = ground arith
