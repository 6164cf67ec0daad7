-- ===== src/Client/Run.antt =====
-- src/bin/clients.rs: `run` and `main`.
use rdma_prototype.Base.{ℕ, List, Option}
use rdma_prototype.Machine.{
  Machine, At, Env, Exec, attempt, throw, ◌>>=◌, in_env, me, owning, do_now, do_sleep,
}
use rdma_prototype.Transport.Poll.{finish}
use rdma_prototype.Transport.Info
use rdma_prototype.Transport.Info.{Info}
use rdma_prototype.Transport.Fabric
use rdma_prototype.Transport.Fabric.{Fabric}
use rdma_prototype.Transport.Listener.{millisecond}
use rdma_prototype.Transport.Connection
use rdma_prototype.Transport.Connection.{Connection}
use rdma_prototype.Transport.Connection.Close
use rdma_prototype.Transport.Connection.Setup
use rdma_prototype.Client.Loop.{ClientIo, Clock, exchange}

module _ (M : Machine) where
  -- `impl ClientIo for Connection`
  abbrev pub connection_io : ClientIo (At M Connection)
  connection_io = record { poll = Connection.poll M; send = Connection.send M }

  abbrev pub connection_clock : Clock (At M Connection)
  connection_clock = record { now = in_env M (do_now M); sleep = in_env M (do_sleep M millisecond) }

  -- The closure of `run`: connect, exchange, close.
  unfoldable pub session : ℕ → Info → ℕ → Fabric → Exec (Env M) Unit
  unfolding Setup.connect owning exchange finish Close.close Close.drop
  session fuel info timeout fabric = do
    conn ← Setup.connect M fuel fabric info timeout
    owning M conn (Close.drop M) do
      result ← attempt (exchange connection_io connection_clock fuel timeout)
      closed ← attempt (Close.close M)
      throw (finish result closed)

  unfoldable pub run : ℕ → List ℕ → List ℕ → Option (List ℕ) → ℕ → Exec (Env M) Unit
  unfolding Info.remote Info.drop Fabric.open_fabric Fabric.drop Fabric.close session owning finish
  run fuel ip port domain timeout = do
    info ← Info.remote M ip port domain
    owning M info (Info.drop M) do
      fabric ← in_env M (Fabric.open_fabric M info)
      in_env M (
          owning M fabric (Fabric.drop M) do
            f ← me M
            result ← attempt (in_env M (session fuel info timeout f))
            closed ← attempt (Fabric.close M)
            throw (finish result closed))
