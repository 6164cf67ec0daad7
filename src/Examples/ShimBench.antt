-- ===== src/Examples/ShimBench.antt =====
-- A libfabric that does what it is asked to, the shim's memory of one connection, and the transport on it.
use rdma_prototype.Base.{
  List, ◌∷◌, ◌≡◌, refl, ℕ, ◌+◌, pos, negsuc, true, false, [], none, some, arith, inl, inr,
}
use rdma_prototype.Outcome.{Outcome, ok, err, panic, unfinished}
use rdma_prototype.Machine.{Machine, At}
use rdma_prototype.Libfabric.{fi_other_event, FiInfo, Libfabric}
use rdma_prototype.Transport.Connection.{Connection}
use rdma_prototype.Transport.Connection.Close
use rdma_prototype.Shim.Connecting.{reject}
use rdma_prototype.Shim.Info.Consuming.{reject-reject}
use rdma_prototype.Shim.Objects.{Listener, Cq, Mr, Op, Store, put}
use rdma_prototype.Shim.Linking.{shim_open, shim_status}
use rdma_prototype.Shim.Listening as Listening
use rdma_prototype.Shim.Querying as Querying
use rdma_prototype.Shim.Teardown.{Closes}
use rdma_prototype.Shim.Endpoint.{Distinct, Wired}
use rdma_prototype.Shim.Backing.{Backed, Serves}
use rdma_prototype.Shim.Closing.{release_op}
use rdma_prototype.Shim.Polling.{cq_poll, reported, find, unlink, report, blank}
use rdma_prototype.Shim.Completing.{Polled, cq_poll-Polled}
use rdma_prototype.Shim.Life.{
  Use, sends, receives, polls_tx, polls_rx, shuts_down, uses, StaysWired, uses-StaysWired,
}
use rdma_prototype.Shim.Composition.{close-Wired}
use rdma_prototype.Examples.Bench.{live, no_completion, no_event}

-- Its world counts its calls.
abbrev pub obliging : Libfabric
obliging = record {
  World = ℕ;
  code = λ e. negsuc 15;
  has_memory = λ w. (true, w);
  open_raw = λ c w. (pos 0, w + 1, w + 1);
  call = λ c w. (pos 0, w + 1);
  cq_read = λ q w. (pos 1, 10, 5, w);
  cq_readerr = λ q w. (pos 0, record { op_context = 0; err = pos 0; prov_errno = pos 0 }, w);
  cq_strerror = λ q e. none;
  strerror = λ e. [];
  version = 65547;
  flag = λ f. 1;
  alloc_info = λ w. (w + 1, w + 1);
  free_info = λ p w. w;
  get_info = λ q w. (pos 0, [], w);
  dup_info = λ p w. (none, w);
  eq_read = λ q w. (negsuc 15, fi_other_event, record { context = none; info = none }, w);
  eq_readerr = λ q w. (pos 0, record { context = none; err = pos 0; prov_errno = pos 0 }, w);
  eq_strerror = λ q e. none;
  cm_entry_size = 24;
}

abbrev rx_queue : Cq
rx_queue = record {
  raw = 5;
  domain = 2;
  pending = 10;
  capacity = 1;
  count = 1;
  used = true;
  attached = true;
  retired = false;
}

abbrev rx_registration : Mr
rx_registration = record {
  raw = 9;
  domain = 2;
  buffer = 200;
  capacity = 64;
  pending = 1;
  access = 2;
}

abbrev rx_operation : Op
rx_operation = record { id = 2; direction = 2; len = 64; cq = 5; mr = 9; next = 0 }

abbrev pub objects : Store obliging
objects = record {
  world = 0;
  next = 11;
  infos = λ p. none;
  fabrics = put 1 (some (record { raw = 1; children = 2 })) (λ p. none);
  domains = put 2 (some (record { raw = 2; fabric = 1; children = 5 })) (λ p. none);
  eqs = put 3 (some (record { raw = 3; fabric = 1; users = 1 })) (λ p. none);
  cqs =
      put 4
        (some (record {
          raw = 4;
          domain = 2;
          pending = 0;
          capacity = 1;
          count = 0;
          used = true;
          attached = true;
          retired = false;
        }))
        (put 5 (some rx_queue) (λ p. none));
  listeners = λ p. none;
  endpoints =
      put 6
        (some (record {
          raw = 6;
          domain = 2;
          eq = 3;
          tx = 4;
          rx = 5;
          max_msg = 4096;
          ready = true;
          closing = false;
        }))
        (λ p. none);
  mrs =
      put 7
        (some
          (record { raw = 7; domain = 2; buffer = 100; capacity = 64; pending = 0; access = 1 }))
        (put 9 (some rx_registration) (λ p. none));
  ops =
      put 8 (some (record { id = 1; direction = 0; len = 0; cq = 0; mr = 0; next = 0 }))
        (put 10 (some rx_operation) (λ p. none));
}

-- The answer of the shim; undefined behaviour answers something.
abbrev answer : {A : Type 0} → A → Outcome A × Store obliging → A × Store obliging
answer other (ok a, t) = (a, t)
answer other (err e, t) = (other, t)
answer other (panic, t) = (other, t)
answer other (unfinished, t) = (other, t)

pub answer-Serves :
    {A : Type 0} (other : A) (r : Outcome A × Store obliging) → Serves (λ w. w) (answer other r) r
answer-Serves other (ok code, t) = (refl, refl)
answer-Serves other (err e, t) = tt
answer-Serves other (panic, t) = tt
answer-Serves other (unfinished, t) = tt

-- The transport's machine: the shim on that libfabric, a clock that counts its calls, and boxes at 100.
abbrev pub shim_bench : Machine
shim_bench = record {
  World = Store obliging;
  open_handle = λ c s. let (r, t) = answer (pos 1, 0) (shim_open obliging c s) in (r.0, r.1, t);
  status = λ c s. answer (pos 1) (shim_status obliging c s);
  eq_poll = λ q s.
      let (r, t) = answer (pos 1, no_event) (Listening.eq_poll obliging q s) in (r.0, r.1, t);
  cq_poll =
      λ q s. let (r, t) = answer (pos 1, no_completion) (cq_poll obliging q s) in (r.0, r.1, t);
  info_free = λ p s. (answer tt (Querying.info_free obliging p s)).1;
  fabric_version = Querying.fabric_version obliging;
  error_string = Querying.error_string obliging;
  error_is_again = Querying.error_is_again obliging;
  now = λ s. (s.world, s);
  sleep = λ d s. s;
  allocate = λ n s. (100, s);
  load = λ p s. [];
  store = λ p text s. s;
  release = λ p s. s;
}

abbrev pub on_shim : Backed shim_bench obliging
on_shim = record {
  store = λ w. w;
  open_handle = λ c w. answer-Serves (pos 1, 0) (shim_open obliging c w);
  status = λ c w. answer-Serves (pos 1) (shim_status obliging c w);
  eq_poll = λ p w. answer-Serves (pos 1, no_event) (Listening.eq_poll obliging p w);
  cq_poll = λ p w. answer-Serves (pos 1, no_completion) (cq_poll obliging p w);
  info_free = λ p w. answer-Serves tt (Querying.info_free obliging p w);
  fabric_version = refl;
  error_string = λ code. refl;
  error_is_again = λ code. refl;
  now = λ w. refl;
  sleep = λ d w. refl;
  allocate = λ n w. refl;
  write = λ p bytes w. refl;
  release = λ p w. refl;
}

pub closes : Closes obliging
closes raw w = refl

abbrev pub live_on_shim : At shim_bench Connection
live_on_shim = record { self = live; env = record { world = objects; trace = [] } }

pub names : Distinct live
names = record {
  ep = λ h. omega (arith, h);
  eq = λ h. omega (arith, h);
  domain = λ h. omega (arith, h);
  tx_cq = λ h. omega (arith, h);
  rx_cq = λ h. omega (arith, h);
  tx_mr = λ h. omega (arith, h);
  tx_op = λ h. omega (arith, h);
  rx_mr = λ h. omega (arith, h);
  rx_op = λ h. omega (arith, h);
  cqs = λ h. omega (arith, h);
  mrs = λ h. omega (arith, h);
  ops = λ h. omega (arith, h);
}

pub wired : Wired live objects
wired = record {
  endpoint = record {
    raw = 6;
    domain = 2;
    eq = 3;
    tx = 4;
    rx = 5;
    max_msg = 4096;
    ready = true;
    closing = false;
  };
  there = refl;
  its_tx = refl;
  its_rx = refl;
  its_eq = refl;
  its_domain = refl;
  tx = (_, _, _, refl, refl, refl, refl, refl, inr (refl, refl, refl, refl, refl));
  rx = (_, _, _, refl, refl, refl, refl, refl, inl (refl, refl, refl, refl, refl, refl));
  domain = (_, _, refl, refl, refl);
  eq = (_, _, refl, refl, refl);
}

close-Wired_example :
    ((Close.close shim_bench live_on_shim).0 ≡ ok tt)
    × ((Close.close shim_bench live_on_shim).1.env.world.domains 2 ≡ none)
close-Wired_example = close-Wired on_shim closes live_on_shim names wired

-- Posting, polling and a send on the same objects.
abbrev calls : List Use
calls = polls_rx ∷ receives 64 200 ∷ sends 5 100 ∷ polls_tx ∷ shuts_down ∷ []

uses-StaysWired_example : StaysWired live (uses obliging live calls objects)
uses-StaysWired_example = uses-StaysWired live names calls objects wired

-- The receive that is in flight completes.
completed_receive :
    (cq_poll obliging 5 objects).0 ≡ ok (pos 1, record blank { op_id = 2; flags = 2; len = 5 })
unfolding cq_poll reported find unlink release_op report
completed_receive = refl

cq_poll-Polled_example :
    Polled 5 9 10 rx_queue rx_registration rx_operation objects (cq_poll obliging 5 objects)
cq_poll-Polled_example =
    cq_poll-Polled 5 9 10 rx_queue rx_registration rx_operation objects refl refl refl
      (λ h. omega (arith, h)) (λ h. omega (arith, h)) (inl (refl, refl, refl, refl, refl, refl))
      (λ h. omega (arith, h))

-- A request that waits at a listener.
abbrev listener_object : Listener
listener_object = record { raw = 20; fabric = 1; eq = 3; ready = true }

abbrev pub request_object : FiInfo
request_object = record {
  raw = 21;
  handle = 22;
  dest_addr = 0;
  unsupported = false;
  tx_op_flags = 0;
  rx_op_flags = 0;
  max_msg_size = 4096;
}

abbrev with_request : Store obliging
with_request = record objects {
  listeners = put 11 (some listener_object) (λ p. none);
  infos = put 12 (some request_object) (λ p. none);
}

reject-reject_example :
    (t : Store obliging) × (reject obliging 11 12 with_request ≡ (ok (pos 0), t))
    × (reject obliging 11 12 t ≡ (ok (negsuc 15), t))
reject-reject_example =
    reject-reject 11 12 listener_object request_object with_request refl refl
      (λ h. omega (arith, h)) (λ h. omega (arith, h)) refl (λ h. omega (arith, h))
