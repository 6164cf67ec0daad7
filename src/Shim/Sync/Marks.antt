-- ===== src/Shim/Sync/Marks.antt =====
-- A connection of src/transport.rs on naive/fabric_shim.c: its flags say nothing about its objects.
use rdma_prototype.Base.{Bool}
use rdma_prototype.Libfabric.{Libfabric}
use rdma_prototype.Transport.Connection.{Connection}
use rdma_prototype.Shim.Objects.{Store}
use rdma_prototype.Shim.Endpoint.{Distinct, Wired}

-- The connection with other flags.
abbrev pub marked : (tx rx started closing : Bool) → Connection → Connection
marked tx rx started closing c = record c {
  tx = record c.tx { pending = tx };
  rx = record c.rx { pending = rx };
  cm_started = started;
  closing = closing;
}

pub Distinct-marked :
    (tx rx started closing : Bool) (c : Connection)
    → Distinct c
    → Distinct (marked tx rx started closing c)
Distinct-marked tx rx started closing c n = record {
  ep = n.ep;
  eq = n.eq;
  domain = n.domain;
  tx_cq = n.tx_cq;
  rx_cq = n.rx_cq;
  tx_mr = n.tx_mr;
  tx_op = n.tx_op;
  rx_mr = n.rx_mr;
  rx_op = n.rx_op;
  cqs = n.cqs;
  mrs = n.mrs;
  ops = n.ops;
}

pub Wired-marked :
    {L : Libfabric} (tx rx started closing : Bool) (c : Connection) (s : Store L)
    → Wired c s
    → Wired (marked tx rx started closing c) s
Wired-marked tx rx started closing c s w = record {
  endpoint = w.endpoint;
  there = w.there;
  its_tx = w.its_tx;
  its_rx = w.its_rx;
  its_eq = w.its_eq;
  its_domain = w.its_domain;
  tx = w.tx;
  rx = w.rx;
  domain = w.domain;
  eq = w.eq;
}
