-- ===== src/Examples/ShimSetup.antt =====
-- A connection that is set up on the shim, over a libfabric that does what it is asked to.
use rdma_prototype.Base.{List, ◌∷◌, inl, inr, ◌≡◌, refl, [], some, none, arith, false}
use rdma_prototype.Outcome.{ok}
use rdma_prototype.Machine.{At}
use rdma_prototype.Transport.Connection.{Connection, post_recv, poll}
use rdma_prototype.Shim.Posting as Posting
use rdma_prototype.Shim.Querying as Querying
use rdma_prototype.Shim.Posting.{post_message, submit, pend}
use rdma_prototype.Shim.Objects.{Store, put}
use rdma_prototype.Shim.Opening.{
  domain_open, eq_open, cq_open, endpoint_open, make_endpoint, attach, bind_endpoint, enabled,
  mr_register, op_create,
}
use rdma_prototype.Examples.Bench.{live}
use rdma_prototype.Examples.ShimBench.{
  obliging, objects, shim_bench, on_shim, request_object, closes, names, wired, live_on_shim,
}
use rdma_prototype.Machine.{check}
use rdma_prototype.Machine.Logic.{Concludes}
use rdma_prototype.Transport.Handle.{open_into}
use rdma_prototype.Transport.Connection.Setup as Setup
use rdma_prototype.Shim.Setup.Opened.{Failing}
use rdma_prototype.Shim.Setup.Stages.{Ready}
use rdma_prototype.Shim.Setup.Initial.{open_resources-Works}
use rdma_prototype.Shim.Sync.Working.{Negative, Works}
use rdma_prototype.Shim.Sync.Observing.{Observed, poll-Observed}
use rdma_prototype.Shim.Sync.Session.{
  Act, sends, receives, polls, perform, Closing, initialize-Closing,
}

-- A fabric and an info that are there, and a connection that has nothing yet.
abbrev beginning : Store obliging
beginning = record objects {
  next = 20;
  infos = put 12 (some request_object) (λ p. none);
  fabrics = put 1 (some (record { raw = 1; children = 0 })) (λ p. none);
}

abbrev fresh : Connection
fresh = record live {
  domain = 0;
  eq = 0;
  tx_cq = 0;
  rx_cq = 0;
  ep = 0;
  tx = record { mr = 0; op = 0; bytes = some (record { ptr = 100; len = 64 }); pending = false };
  rx = record { mr = 0; op = 0; bytes = some (record { ptr = 200; len = 64 }); pending = false };
}

abbrev fresh_on_shim : At shim_bench Connection
fresh_on_shim = record { self = fresh; env = record { world = beginning; trace = [] } }

fails : Failing obliging
fails e = refl

ready : Ready 12 request_object fresh beginning
ready = (
  λ h. omega (arith, h),
  λ h. omega (arith, h),
  λ h. omega (arith, h),
  (_, refl),
  refl,
  (_, refl),
  (_, refl),
)

open_resources-Works_example :
    Concludes
      (λ _ u. Works on_shim u)
      (Setup.open_resources shim_bench (record { raw = 12 }) fresh_on_shim)
open_resources-Works_example =
    open_resources-Works on_shim fails (record { raw = 12 }) request_object fresh_on_shim ready

-- It does set the connection up here.
opened_here : (Setup.open_resources shim_bench (record { raw = 12 }) fresh_on_shim).0 ≡ ok tt
unfolding Setup.open_resources open_into check domain_open eq_open cq_open endpoint_open
    make_endpoint attach bind_endpoint enabled mr_register op_create
opened_here = refl

negative : Negative obliging
negative e = refl

acts : List Act
acts = polls ∷ sends (1 ∷ 2 ∷ []) ∷ polls ∷ receives ∷ []

-- Here `initialize` does succeed: the first receive is posted.
initialized_here :
    (Setup.initialize shim_bench 5 (record { raw = 12 }) 1000000 fresh_on_shim).0 ≡ ok tt
unfolding Setup.initialize Setup.open_resources open_into check domain_open eq_open cq_open
    endpoint_open make_endpoint attach bind_endpoint enabled mr_register op_create Setup.post_until
    post_recv post_message submit pend Querying.error_is_again Posting.post_recv Posting.outside
initialized_here = refl

abbrev initialized_on_shim : At shim_bench Connection
initialized_on_shim = (Setup.initialize shim_bench 5 (record { raw = 12 }) 1000000 fresh_on_shim).1

initialize-Closing_example :
    Closing on_shim negative (perform shim_bench acts initialized_on_shim).1
unfolding Setup.initialize Setup.open_resources open_into check domain_open eq_open cq_open
    endpoint_open make_endpoint attach bind_endpoint enabled mr_register op_create Setup.post_until
    post_recv post_message submit pend Querying.error_is_again Posting.post_recv Posting.outside
initialize-Closing_example =
    initialize-Closing on_shim negative closes 5 (record { raw = 12 }) request_object 1000000 acts
      fresh_on_shim ready

-- The connection of the other examples, with its receive in flight.
live_works : Works on_shim live_on_shim
live_works = (
  record {
    names = names;
    wired = wired;
    tx = (_, _, refl, refl, refl, inl refl);
    rx = (_, _, refl, refl, refl, inr (refl, refl));
  },
  (λ h. cc, λ h. cc),
)

poll-Observed_example : Observed on_shim negative (poll shim_bench live_on_shim)
poll-Observed_example = poll-Observed on_shim negative live_on_shim live_works
