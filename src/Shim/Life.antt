-- ===== src/Shim/Life.antt =====
-- naive/fabric_shim.c: the calls that a connection makes of the shim between its setup and its close.
use rdma_prototype.Base.{sym, ℕ, true, false, List, [], ◌∷◌}
use rdma_prototype.Outcome.{Outcome, ok, err, panic, unfinished}
use rdma_prototype.Ffi.{Ptr}
use rdma_prototype.Machine.{Exec, pure, resume, ◌>>◌}
use rdma_prototype.Libfabric.{Libfabric}
use rdma_prototype.Transport.Connection.{Connection}
use rdma_prototype.Shim.Objects.{Store}
use rdma_prototype.Shim.Posting.{post_send, post_recv, shutdown}
use rdma_prototype.Shim.Polling.{cq_poll}
use rdma_prototype.Shim.Lending.{Still, Keeps, Attached-Frame}
use rdma_prototype.Shim.Teardown.{DomainAt, EqAt}
use rdma_prototype.Shim.Endpoint.{Distinct, Wired, shutdown-Wired}
use rdma_prototype.Shim.Submission.{post_message-Keeps}
use rdma_prototype.Shim.Completing.{cq_poll-Keeps}

-- A call with the connection's own handles.
pub data Use : Type 0 where
  sends receives : (len : ℕ) (buf : Ptr) → Use
  polls_tx polls_rx shuts_down : Use

module _ (L : Libfabric) (c : Connection) where
  abbrev pub use_once : Use → Exec (Store L) Unit
  use_once (sends len buf) = do post_send L c.ep c.tx.op c.tx.mr len buf; pure tt
  use_once (receives len buf) = do post_recv L c.ep c.rx.op c.rx.mr len buf; pure tt
  use_once polls_tx = do cq_poll L c.tx_cq; pure tt
  use_once polls_rx = do cq_poll L c.rx_cq; pure tt
  use_once shuts_down = do shutdown L c.ep; pure tt

  -- Any sequence of them.
  abbrev pub uses : List Use → Exec (Store L) Unit
  uses [] = pure tt
  uses (call ∷ calls) = use_once call >> uses calls

-- A call that answers and leaves the connection's objects in order.
abbrev pub StaysWired : {L : Libfabric} {A : Type 0} → Connection → Outcome A × Store L → Type 0
StaysWired c (ok a, t) = Wired c t
StaysWired c (err e, t) = ⊥
StaysWired c (panic, t) = ⊥
StaysWired c (unfinished, t) = ⊥

module _ {L : Libfabric} (c : Connection) (names : Distinct c) where
  pub DomainAt-Still :
      (d : Ptr) (n : ℕ) (s t : Store L) → Still s t → DomainAt d n s → DomainAt d n t
  DomainAt-Still d n s t still (x, f, hx, hf, count) = (x, f, rw still.1 hx, rw still.0 hf, count)

  pub EqAt-Still : (eq : Ptr) (n : ℕ) (s t : Store L) → Still s t → EqAt eq n s → EqAt eq n t
  EqAt-Still eq n s t still (x, f, hx, hf, count) = (x, f, rw still.2 hx, rw still.0 hf, count)

  pub tx-StaysWired :
      {A : Type 0} (s : Store L) (r : Outcome A) (t : Store L)
      → Wired c s
      → Keeps c.domain c.tx_cq c.tx.mr c.tx.op s (r, t)
      → StaysWired c (r, t)
  tx-StaysWired s (ok a) t w (tx, frame, still) = record {
    endpoint = w.endpoint;
    there = rw still.3 w.there;
    its_tx = w.its_tx;
    its_rx = w.its_rx;
    its_eq = w.its_eq;
    its_domain = w.its_domain;
    tx = tx;
    rx =
        Attached-Frame c.domain c.rx_cq c.rx.mr c.rx.op c.tx_cq c.tx.mr c.tx.op s t
          (λ e. names.cqs (sym e)) (λ e. names.mrs (sym e)) (λ e. names.ops (sym e)) frame w.rx;
    domain = DomainAt-Still c.domain 5 s t still w.domain;
    eq = EqAt-Still c.eq 1 s t still w.eq;
  }
  tx-StaysWired s (err e) t w h = h
  tx-StaysWired s panic t w h = h
  tx-StaysWired s unfinished t w h = h

  pub rx-StaysWired :
      {A : Type 0} (s : Store L) (r : Outcome A) (t : Store L)
      → Wired c s
      → Keeps c.domain c.rx_cq c.rx.mr c.rx.op s (r, t)
      → StaysWired c (r, t)
  rx-StaysWired s (ok a) t w (rx, frame, still) = record {
    endpoint = w.endpoint;
    there = rw still.3 w.there;
    its_tx = w.its_tx;
    its_rx = w.its_rx;
    its_eq = w.its_eq;
    its_domain = w.its_domain;
    tx =
        Attached-Frame c.domain c.tx_cq c.tx.mr c.tx.op c.rx_cq c.rx.mr c.rx.op s t names.cqs
          names.mrs names.ops frame w.tx;
    rx = rx;
    domain = DomainAt-Still c.domain 5 s t still w.domain;
    eq = EqAt-Still c.eq 1 s t still w.eq;
  }
  rx-StaysWired s (err e) t w h = h
  rx-StaysWired s panic t w h = h
  rx-StaysWired s unfinished t w h = h

  -- What follows a call forgets its answer.
  forget-StaysWired :
      {A : Type 0} (r : Outcome A) (t : Store L)
      → StaysWired c (r, t)
      → StaysWired c (resume r (λ _. pure tt) t)
  forget-StaysWired (ok a) t h = h
  forget-StaysWired (err e) t h = h
  forget-StaysWired panic t h = h
  forget-StaysWired unfinished t h = h

  use_once-StaysWired : (call : Use) (s : Store L) → Wired c s → StaysWired c (use_once L c call s)
  unfolding post_send post_recv
  use_once-StaysWired (sends len buf) s w = forget-StaysWired _ _ (
      tx-StaysWired s _ _ w (
        post_message-Keeps c.domain c.ep c.tx_cq c.tx.mr c.tx.op w.endpoint len buf false s
          names.tx_cq w.there w.its_tx w.tx))
  use_once-StaysWired (receives len buf) s w = forget-StaysWired _ _ (
      rx-StaysWired s _ _ w (
        post_message-Keeps c.domain c.ep c.rx_cq c.rx.mr c.rx.op w.endpoint len buf true s
          names.rx_cq w.there w.its_rx w.rx))
  use_once-StaysWired polls_tx s w = forget-StaysWired _ _ (
      tx-StaysWired s _ _ w
        (cq_poll-Keeps c.domain c.tx_cq c.tx.mr c.tx.op s names.tx_cq names.tx_mr names.tx_op w.tx))
  use_once-StaysWired polls_rx s w = forget-StaysWired _ _ (
      rx-StaysWired s _ _ w
        (cq_poll-Keeps c.domain c.rx_cq c.rx.mr c.rx.op s names.rx_cq names.rx_mr names.rx_op w.rx))
  use_once-StaysWired shuts_down s w =
      let (code, t, h, after) = shutdown-Wired c s names.ep w in rw h after

  bind-StaysWired :
      (m n : Exec (Store L) Unit) (s : Store L)
      → StaysWired c (m s)
      → ((t : Store L) → Wired c t → StaysWired c (n t))
      → StaysWired c ((m >> n) s)
  bind-StaysWired m n s h k = go (m s).0 (m s).1 h
    where
      go :
          (r : Outcome Unit) (t : Store L)
          → StaysWired c (r, t)
          → StaysWired c (resume r (λ _. n) t)
      go (ok u) t h = k t h
      go (err e) t h = h
      go panic t h = h
      go unfinished t h = h

  -- A connection that is set up, with at most its own operation in flight on each slot, stays so under
  -- every sequence of sends, posted receives, polls of its queues and shutdowns with its own
  -- handles, whatever their lengths and buffers are and whatever libfabric answers; and every one of
  -- these calls returns without undefined behaviour.
  pub uses-StaysWired :
      (calls : List Use) (s : Store L) → Wired c s → StaysWired c (uses L c calls s)
  uses-StaysWired [] s w = w
  uses-StaysWired (call ∷ calls) s w =
      bind-StaysWired (use_once L c call) (uses L c calls) s (use_once-StaysWired call s w)
        (λ t v. uses-StaysWired calls t v)
