-- ===== src/Client/RunTermination.antt =====
-- src/bin/clients.rs: `run` and the fuel of its loops.
use rdma_prototype.Base.{ℕ, suc, ◌*◌, ◌≤◌, List, Option}
use rdma_prototype.Outcome.{Outcome, ok, err, panic, unfinished}
use rdma_prototype.Machine.{Machine, At, Env}
use rdma_prototype.Machine.Clock.{Clocked, Later-Steps, Later-Posts}
use rdma_prototype.Client.Safety.{client_run-Safe}
use rdma_prototype.Machine.Halting.{IsAnswer, Halted-IsAnswer, Halts, Halts-bind}
use rdma_prototype.Machine.Logic.{Finishes}
use rdma_prototype.Transport.Info
use rdma_prototype.Transport.Info.{Info}
use rdma_prototype.Transport.Fabric.{Fabric}
use rdma_prototype.Transport.Listener.{millisecond}
use rdma_prototype.Transport.Connection.{Connection, send}
use rdma_prototype.Transport.Connection.Close
use rdma_prototype.Transport.Connection.Setup
use rdma_prototype.Transport.Connection.Post.{Sends, send-Sends}
use rdma_prototype.Transport.Connection.Worlds.{send-Runs}
use rdma_prototype.Transport.Halting.{query-Halts, close-Halts}
use rdma_prototype.Transport.Waiting.{polled-Finishes}
use rdma_prototype.Transport.Construction.{connect-Halts}
use rdma_prototype.Transport.Scopes.{Halts-worked, Halts-in_info}
use rdma_prototype.Client.Loop.{exchange}
use rdma_prototype.Client.Run.{connection_io, connection_clock, session, run}
use rdma_prototype.Client.Termination.{ClockLaws, exchange-Finishes}

module _ {M : Machine} (clock : Clocked M) where
  send-Finishes :
      (s : At M Connection) (text : List ℕ)
      → Finishes (λ _ t. clock.time s.env.world ≤ clock.time t.env.world) (send M text s)
  send-Finishes s text =
      go (send M text s).0 (send M text s).1 (send-Sends M text s)
        (send-Runs (Later-Steps clock) (Later-Posts clock) text s)
    where
      go :
          (r : Outcome _) (t : At M Connection)
          → Sends M text s (r, t)
          → clock.time s.env.world ≤ clock.time t.env.world
          → Finishes (λ _ t. clock.time s.env.world ≤ clock.time t.env.world) (r, t)
      go (ok b) t h p = p
      go (err e) t h p = tt
      go panic t h p = tt
      go unfinished t h p = elim h [ ]

  -- A `Connection` is a transport as the client's loop needs it.
  connection_laws : ClockLaws (connection_io M) (connection_clock M) (λ s. clock.time s.env.world)
  connection_laws = record {
    now = λ s. (clock.now_reads s.env.world, clock.now_later s.env.world);
    sleep = λ s. clock.sleep_later millisecond s.env.world;
    poll = polled-Finishes clock;
    send = send-Finishes;
  }

  module _ (k timeout : ℕ) (fits : timeout ≤ k * millisecond) where
    session-Halts : (info : Info) (fabric : Fabric) → Halts (session M (suc k) info timeout fabric)
    unfolding session
    session-Halts info fabric =
        Halts-bind (Setup.connect M (suc k) fabric info timeout) _
          (connect-Halts clock k fabric info timeout fits)
          (λ conn.
            Halts-worked M conn (Close.drop M)
              (exchange (connection_io M) (connection_clock M) (suc k) timeout) (Close.close M)
              (λ s. exchange-Finishes connection_laws k timeout s fits) (close-Halts M))

    run-Halts :
        (ip port : List ℕ) (domain : Option (List ℕ)) → Halts (run M (suc k) ip port domain timeout)
    unfolding run Info.remote
    run-Halts ip port domain =
        Halts-bind (Info.remote M ip port domain) _ (query-Halts M ip port domain _)
          (λ info. Halts-in_info M info (session M (suc k) info timeout) (session-Halts info))

-- The client's `run` answers, with success or an error, when it has one round of fuel for each
-- millisecond of its timeout and one more, on a clock that does not go back and sleeps for the time
-- it is asked to.
pub client_run-IsAnswer :
    {M : Machine} (clock : Clocked M) (k timeout : ℕ) (fits : timeout ≤ k * millisecond)
    (ip port : List ℕ) (domain : Option (List ℕ)) (e : Env M)
    → IsAnswer (run M (suc k) ip port domain timeout e).0
client_run-IsAnswer {M} clock k timeout fits ip port domain e =
    Halted-IsAnswer (run M (suc k) ip port domain timeout e).0
      (run M (suc k) ip port domain timeout e).1 (run-Halts clock k timeout fits ip port domain e)
      (client_run-Safe M (suc k) ip port domain timeout e)
