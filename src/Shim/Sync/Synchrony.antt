-- ===== src/Shim/Sync/Synchrony.antt =====
-- A connection of src/transport.rs in step with naive/fabric_shim.c: its objects are there, and the
-- flags of its slots agree with its queues.
use rdma_prototype.Base.{ℕ, ℤ, pos, Bool, true, false, ◌≡◌, ◌⊎◌}
use rdma_prototype.Outcome.{Outcome, ok, err, panic, unfinished}
use rdma_prototype.Ffi.{Completion, completion_send, completion_recv}
use rdma_prototype.Libfabric.{Libfabric}
use rdma_prototype.Transport.Connection.{Connection, tx_id, rx_id}
use rdma_prototype.Shim.Objects.{Store}
use rdma_prototype.Shim.Completing.{Quiet}
use rdma_prototype.Shim.Endpoint.{Distinct, Wired}
use rdma_prototype.Shim.Sync.Marks.{marked, Distinct-marked, Wired-marked}
use rdma_prototype.Shim.Sync.Tracking.{Tracked, Tracked-set, Tracked-any}
use rdma_prototype.Shim.Sync.Aside.{LeavesAside}

pub record InStep {L : Libfabric} (c : Connection) (s : Store L) : Type 0 where
  pub names : Distinct c
  pub wired : Wired c s
  pub tx : Tracked tx_id completion_send c.tx.pending c.tx_cq c.tx.op s
  pub rx : Tracked rx_id completion_recv c.rx.pending c.rx_cq c.rx.op s

-- A submission: it is refused, or accepted with the answer 0 and the flag may be set.
abbrev pub Submitted : {L : Libfabric} → (c d : Connection) → Outcome ℤ × Store L → Type 0
Submitted c d (ok code, t) = InStep c t ⊎ ((code ≡ pos 0) × InStep d t)
Submitted c d (err e, t) = ⊥
Submitted c d (panic, t) = ⊥
Submitted c d (unfinished, t) = ⊥

-- A poll: nothing is reported, or the operation of a slot whose flag is set.
abbrev pub Reported :
    {L : Libfabric}
    → (id direction : ℕ) → Bool
    → (c d : Connection) → Outcome (ℤ × Completion) × Store L
    → Type 0
Reported {L = L} id direction pending c d (ok (code, out), t) =
    (InStep c t × Quiet L code)
    ⊎ ((code ≡ pos 1) × (pending ≡ true) × (out.op_id ≡ id) × (out.flags ≡ direction) × InStep d t)
Reported id direction pending c d (err e, t) = ⊥
Reported id direction pending c d (panic, t) = ⊥
Reported id direction pending c d (unfinished, t) = ⊥

-- The flags of a slot.
abbrev pub tx_flag : Bool → Connection → Connection
tx_flag b c = marked b c.rx.pending c.cm_started c.closing c

abbrev pub rx_flag : Bool → Connection → Connection
rx_flag b c = marked c.tx.pending b c.cm_started c.closing c

module _ {L : Libfabric} (c : Connection) where
  pub InStep-started :
      (started closing : Bool) (s : Store L)
      → InStep c s
      → InStep (record c { cm_started = started; closing = closing }) s
  InStep-started started closing s h = record {
    names = Distinct-marked c.tx.pending c.rx.pending started closing c h.names;
    wired = Wired-marked c.tx.pending c.rx.pending started closing c s h.wired;
    tx = h.tx;
    rx = h.rx;
  }

  -- A flag may be set at any time.
  pub tx_flag-InStep : (s : Store L) → InStep c s → InStep (tx_flag true c) s
  tx_flag-InStep s h = record {
    names = Distinct-marked true c.rx.pending c.cm_started c.closing c h.names;
    wired = Wired-marked true c.rx.pending c.cm_started c.closing c s h.wired;
    tx = Tracked-set tx_id completion_send c.tx.pending c.tx_cq c.tx.op s h.tx;
    rx = h.rx;
  }

  pub rx_flag-InStep : (s : Store L) → InStep c s → InStep (rx_flag true c) s
  rx_flag-InStep s h = record {
    names = Distinct-marked c.tx.pending true c.cm_started c.closing c h.names;
    wired = Wired-marked c.tx.pending true c.cm_started c.closing c s h.wired;
    tx = h.tx;
    rx = Tracked-set rx_id completion_recv c.rx.pending c.rx_cq c.rx.op s h.rx;
  }

  -- A flag that is left set after its operation is reported.
  pub tx_unflag-InStep : (s : Store L) → InStep (tx_flag false c) s → InStep c s
  tx_unflag-InStep s h = record {
    names =
        Distinct-marked c.tx.pending c.rx.pending c.cm_started c.closing (tx_flag false c) h.names;
    wired =
        Wired-marked c.tx.pending c.rx.pending c.cm_started c.closing (tx_flag false c) s h.wired;
    tx = Tracked-any tx_id completion_send c.tx.pending c.tx_cq c.tx.op s h.tx;
    rx = h.rx;
  }

  pub rx_unflag-InStep : (s : Store L) → InStep (rx_flag false c) s → InStep c s
  rx_unflag-InStep s h = record {
    names =
        Distinct-marked c.tx.pending c.rx.pending c.cm_started c.closing (rx_flag false c) h.names;
    wired =
        Wired-marked c.tx.pending c.rx.pending c.cm_started c.closing (rx_flag false c) s h.wired;
    tx = h.tx;
    rx = Tracked-any rx_id completion_recv c.rx.pending c.rx_cq c.rx.op s h.rx;
  }

  pub InStep-aside :
      {A : Type 0} (s : Store L) (a : A) (t : Store L)
      → InStep c s
      → LeavesAside s (ok a, t)
      → InStep c t
  InStep-aside s a t h (cqs, mrs, ops, (fabrics, domains, eqs, endpoints)) =
      let w = h.wired in
      record {
        names = h.names;
        wired = record {
          endpoint = w.endpoint;
          there = rw endpoints w.there;
          its_tx = w.its_tx;
          its_rx = w.its_rx;
          its_eq = w.its_eq;
          its_domain = w.its_domain;
          tx = rw (cqs, mrs, ops) w.tx;
          rx = rw (cqs, mrs, ops) w.rx;
          domain = rw (domains, fabrics) w.domain;
          eq = rw (eqs, fabrics) w.eq;
        };
        tx = rw (cqs, ops) h.tx;
        rx = rw (cqs, ops) h.rx;
      }
