-- ===== src/Shim/Sync/Reporting.antt =====
-- naive/fabric_shim.c: the submissions and the polls of a connection in step with the shim.
use rdma_prototype.Base.{ℕ, ℤ, true, false, sym, inl, inr}
use rdma_prototype.Outcome.{Outcome, ok, err, panic, unfinished}
use rdma_prototype.Ffi.{Ptr, Completion, completion_send, completion_recv}
use rdma_prototype.Libfabric.{Libfabric}
use rdma_prototype.Transport.Connection.{Connection, tx_id, rx_id}
use rdma_prototype.Shim.Objects.{Store}
use rdma_prototype.Shim.Posting.{post_send, post_recv}
use rdma_prototype.Shim.Polling.{cq_poll}
use rdma_prototype.Shim.Lending.{Keeps}
use rdma_prototype.Shim.Submission.{post_message-Keeps}
use rdma_prototype.Shim.Completing.{cq_poll-Keeps}
use rdma_prototype.Shim.Sync.Marks.{Distinct-marked, Wired-marked}
use rdma_prototype.Shim.Life.{tx-StaysWired, rx-StaysWired}
use rdma_prototype.Shim.Sync.Tracking.{
  Tracked-Frame, Submits, Reports, post_message-Submits, cq_poll-Reports,
}
use rdma_prototype.Shim.Sync.Synchrony.{InStep, Submitted, Reported, tx_flag, rx_flag}

module _ {L : Libfabric} (c : Connection) where
  pub post_send-Submitted :
      (len : ℕ) (buf : Ptr) (s : Store L)
      → InStep c s
      → Submitted c (tx_flag true c) (post_send L c.ep c.tx.op c.tx.mr len buf s)
  unfolding post_send
  post_send-Submitted len buf s h =
      let w = h.wired in
      let r = post_send L c.ep c.tx.op c.tx.mr len buf s in
      go r.0 r.1
        (post_message-Keeps c.domain c.ep c.tx_cq c.tx.mr c.tx.op w.endpoint len buf false s
          h.names.tx_cq w.there w.its_tx w.tx)
        (post_message-Submits tx_id c.tx.pending c.domain c.ep c.tx_cq c.tx.mr c.tx.op w.endpoint
          len buf false s w.there w.its_tx w.tx h.tx)
    where
      go :
          (r : Outcome ℤ) (t : Store L)
          → Keeps c.domain c.tx_cq c.tx.mr c.tx.op s (r, t)
          → Submits tx_id completion_send c.tx.pending c.tx_cq c.tx.op (r, t)
          → Submitted c (tx_flag true c) (r, t)
      go (ok code) t keeps sub =
          let wired = tx-StaysWired c h.names s (ok code) t h.wired keeps in
          let other =
            Tracked-Frame rx_id completion_recv c.rx.pending c.rx_cq c.rx.op c.tx_cq c.tx.mr c.tx.op
              s t (λ e. h.names.cqs (sym e)) (λ e. h.names.ops (sym e)) keeps.1 h.rx in
          elim sub [
            | inl same ↦ inl (record { names = h.names; wired = wired; tx = same; rx = other })
            | inr (fine, set) ↦ inr (
              fine,
              record {
                names = Distinct-marked true c.rx.pending c.cm_started c.closing c h.names;
                wired = Wired-marked true c.rx.pending c.cm_started c.closing c t wired;
                tx = set;
                rx = other;
              },
            )
          ]
      go (err e) t keeps sub = keeps
      go panic t keeps sub = keeps
      go unfinished t keeps sub = keeps

  pub post_recv-Submitted :
      (len : ℕ) (buf : Ptr) (s : Store L)
      → InStep c s
      → Submitted c (rx_flag true c) (post_recv L c.ep c.rx.op c.rx.mr len buf s)
  unfolding post_recv
  post_recv-Submitted len buf s h =
      let w = h.wired in
      let r = post_recv L c.ep c.rx.op c.rx.mr len buf s in
      go r.0 r.1
        (post_message-Keeps c.domain c.ep c.rx_cq c.rx.mr c.rx.op w.endpoint len buf true s
          h.names.rx_cq w.there w.its_rx w.rx)
        (post_message-Submits rx_id c.rx.pending c.domain c.ep c.rx_cq c.rx.mr c.rx.op w.endpoint
          len buf true s w.there w.its_rx w.rx h.rx)
    where
      go :
          (r : Outcome ℤ) (t : Store L)
          → Keeps c.domain c.rx_cq c.rx.mr c.rx.op s (r, t)
          → Submits rx_id completion_recv c.rx.pending c.rx_cq c.rx.op (r, t)
          → Submitted c (rx_flag true c) (r, t)
      go (ok code) t keeps sub =
          let wired = rx-StaysWired c h.names s (ok code) t h.wired keeps in
          let other =
            Tracked-Frame tx_id completion_send c.tx.pending c.tx_cq c.tx.op c.rx_cq c.rx.mr c.rx.op
              s t h.names.cqs h.names.ops keeps.1 h.tx in
          elim sub [
            | inl same ↦ inl (record { names = h.names; wired = wired; tx = other; rx = same })
            | inr (fine, set) ↦ inr (
              fine,
              record {
                names = Distinct-marked c.tx.pending true c.cm_started c.closing c h.names;
                wired = Wired-marked c.tx.pending true c.cm_started c.closing c t wired;
                tx = other;
                rx = set;
              },
            )
          ]
      go (err e) t keeps sub = keeps
      go panic t keeps sub = keeps
      go unfinished t keeps sub = keeps

  pub tx_poll-Reported :
      (s : Store L)
      → InStep c s
      → Reported tx_id completion_send c.tx.pending c (tx_flag false c) (cq_poll L c.tx_cq s)
  tx_poll-Reported s h =
      let w = h.wired in
      let r = cq_poll L c.tx_cq s in
      go r.0 r.1
        (cq_poll-Keeps c.domain c.tx_cq c.tx.mr c.tx.op s h.names.tx_cq h.names.tx_mr h.names.tx_op
          w.tx)
        (cq_poll-Reports tx_id completion_send c.tx.pending c.domain c.tx_cq c.tx.mr c.tx.op s
          h.names.tx_cq h.names.tx_mr h.names.tx_op w.tx h.tx)
    where
      go :
          (r : Outcome (ℤ × Completion)) (t : Store L)
          → Keeps c.domain c.tx_cq c.tx.mr c.tx.op s (r, t)
          → Reports tx_id completion_send c.tx.pending c.tx_cq c.tx.op (r, t)
          → Reported tx_id completion_send c.tx.pending c (tx_flag false c) (r, t)
      go (ok (code, out)) t keeps rep =
          let wired =
            tx-StaysWired c h.names {A = ℤ × Completion} s (ok (code, out)) t h.wired keeps in
          let other =
            Tracked-Frame rx_id completion_recv c.rx.pending c.rx_cq c.rx.op c.tx_cq c.tx.mr c.tx.op
              s t (λ e. h.names.cqs (sym e)) (λ e. h.names.ops (sym e)) keeps.1 h.rx in
          elim rep [
            | inl (same, quiet) ↦
                inl (record { names = h.names; wired = wired; tx = same; rx = other }, quiet)
            | inr (one, set, number, kind, done) ↦ inr (
              one,
              set,
              number,
              kind,
              record {
                names = Distinct-marked false c.rx.pending c.cm_started c.closing c h.names;
                wired = Wired-marked false c.rx.pending c.cm_started c.closing c t wired;
                tx = done;
                rx = other;
              },
            )
          ]
      go (err e) t keeps rep = keeps
      go panic t keeps rep = keeps
      go unfinished t keeps rep = keeps

  pub rx_poll-Reported :
      (s : Store L)
      → InStep c s
      → Reported rx_id completion_recv c.rx.pending c (rx_flag false c) (cq_poll L c.rx_cq s)
  rx_poll-Reported s h =
      let w = h.wired in
      let r = cq_poll L c.rx_cq s in
      go r.0 r.1
        (cq_poll-Keeps c.domain c.rx_cq c.rx.mr c.rx.op s h.names.rx_cq h.names.rx_mr h.names.rx_op
          w.rx)
        (cq_poll-Reports rx_id completion_recv c.rx.pending c.domain c.rx_cq c.rx.mr c.rx.op s
          h.names.rx_cq h.names.rx_mr h.names.rx_op w.rx h.rx)
    where
      go :
          (r : Outcome (ℤ × Completion)) (t : Store L)
          → Keeps c.domain c.rx_cq c.rx.mr c.rx.op s (r, t)
          → Reports rx_id completion_recv c.rx.pending c.rx_cq c.rx.op (r, t)
          → Reported rx_id completion_recv c.rx.pending c (rx_flag false c) (r, t)
      go (ok (code, out)) t keeps rep =
          let wired =
            rx-StaysWired c h.names {A = ℤ × Completion} s (ok (code, out)) t h.wired keeps in
          let other =
            Tracked-Frame tx_id completion_send c.tx.pending c.tx_cq c.tx.op c.rx_cq c.rx.mr c.rx.op
              s t h.names.cqs h.names.ops keeps.1 h.tx in
          elim rep [
            | inl (same, quiet) ↦
                inl (record { names = h.names; wired = wired; tx = other; rx = same }, quiet)
            | inr (one, set, number, kind, done) ↦ inr (
              one,
              set,
              number,
              kind,
              record {
                names = Distinct-marked c.tx.pending false c.cm_started c.closing c h.names;
                wired = Wired-marked c.tx.pending false c.cm_started c.closing c t wired;
                tx = other;
                rx = done;
              },
            )
          ]
      go (err e) t keeps rep = keeps
      go panic t keeps rep = keeps
      go unfinished t keeps rep = keeps
