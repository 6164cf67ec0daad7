-- ===== src/Examples/Bench.antt =====
-- A machine whose world is its clock: every call succeeds, no event is pending, memory is empty.
use rdma_prototype.Base.{ℕ, ◌+◌, refl, pos, true, false, [], some, arith}
use rdma_prototype.Ffi.{Completion, ConnectEvent}
use rdma_prototype.Machine.{Machine, At, Env}
use rdma_prototype.Machine.Clock.{Clocked}
use rdma_prototype.Transport.Connection.{Connection}

abbrev pub no_completion : Completion
no_completion = record {
  op_id = 0;
  flags = 0;
  len = 0;
  err = pos 0;
  prov_err = pos 0;
  message = [];
}

abbrev pub no_event : ConnectEvent
no_event = record {
  event_type = 0;
  source = 0;
  info = 0;
  err = pos 0;
  prov_err = pos 0;
  message = [];
}

abbrev pub bench : Machine
bench = record {
  World = ℕ;
  open_handle = λ c w. (pos 0, 7, w);
  status = λ c w. (pos 0, w);
  eq_poll = λ q w. (pos 0, no_event, w);
  cq_poll = λ q w. (pos 0, no_completion, w);
  info_free = λ p w. w;
  fabric_version = 65547;
  error_string = λ code. [];
  error_is_again = λ code. pos 0;
  now = λ w. (w, w);
  sleep = λ d w. w + d;
  allocate = λ n w. (100, w);
  load = λ p w. [];
  store = λ p text w. w;
  release = λ p w. w;
}

abbrev pub bench_clock : Clocked bench
bench_clock = record {
  time = λ w. w;
  now_reads = λ w. refl;
  now_later = λ w. omega arith;
  sleep_later = λ d w. omega arith;
  status_later = λ c w. omega arith;
  eq_poll_later = λ q w. omega arith;
  cq_poll_later = λ q w. omega arith;
  store_later = λ p text w. omega arith;
}

-- A connection with all its resources, a receive in flight, at time 5.
abbrev pub live : Connection
live = record {
  fabric = record { raw = 1 };
  domain = 2;
  eq = 3;
  tx_cq = 4;
  rx_cq = 5;
  ep = 6;
  tx = record { bytes = some (record { ptr = 100; len = 64 }); mr = 7; op = 8; pending = false };
  rx = record { bytes = some (record { ptr = 200; len = 64 }); mr = 9; op = 10; pending = true };
  cm_started = true;
  closing = false;
}

abbrev pub live_at : At bench Connection
live_at = record { self = live; env = record { world = 5; trace = [] } }

abbrev pub bench_env : Env bench
bench_env = record { world = 5; trace = [] }
