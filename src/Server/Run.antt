-- ===== src/Server/Run.antt =====
-- src/bin/server.rs: `run`.
use rdma_prototype.Base.{ℕ, List, Option}
use rdma_prototype.Machine.{Machine, Env, Exec, attempt, throw, ◌>>=◌, in_env, me, owning}
use rdma_prototype.Transport.Poll.{finish}
use rdma_prototype.Transport.Info
use rdma_prototype.Transport.Info.{Info}
use rdma_prototype.Transport.Fabric
use rdma_prototype.Transport.Fabric.{Fabric}
use rdma_prototype.Transport.Request
use rdma_prototype.Transport.Request.{Request}
use rdma_prototype.Transport.Listener
use rdma_prototype.Transport.Connection.{Connection}
use rdma_prototype.Transport.Connection.Close
use rdma_prototype.Transport.Connection.Setup
use rdma_prototype.Server.Loop.{serve}

module _ (M : Machine) where
  -- The accept of one request, which is dropped when the connection stands or has failed.
  unfoldable pub accept_one : ℕ → ℕ → Request → Exec (Env M) Connection
  unfolding owning Request.drop Setup.from_request
  accept_one fuel timeout request =
      owning M request (Request.drop M) (Setup.from_request M fuel timeout)

  -- The inner closure of `run`: one request, one connection.
  unfoldable pub session : ℕ → ℕ → Request.Listener → Exec (Env M) Unit
  unfolding accept_one serve Close.close Close.drop owning finish Listener.wait_request
  session fuel timeout listener = do
    request ← Listener.wait_request M fuel listener timeout
    conn ← accept_one fuel timeout request
    owning M conn (Close.drop M) do
      result ← attempt (serve M fuel timeout)
      closed ← attempt (Close.close M)
      throw (finish result closed)

  -- The outer closure of `run`: the listener around the session.
  unfoldable pub listen : ℕ → Info → ℕ → Fabric → Exec (Env M) Unit
  unfolding Listener.bind Listener.close Listener.drop session owning finish
  listen fuel info timeout fabric = do
    listener ← Listener.bind M fabric info
    owning M listener (Listener.drop M) do
      l ← me M
      result ← attempt (in_env M (session fuel timeout l))
      closed ← attempt (Listener.close M)
      throw (finish result closed)

  unfoldable pub run : ℕ → List ℕ → List ℕ → Option (List ℕ) → ℕ → Exec (Env M) Unit
  unfolding Info.local Info.drop Fabric.open_fabric Fabric.drop Fabric.close listen owning finish
  run fuel ip port domain timeout = do
    info ← Info.local M ip port domain
    owning M info (Info.drop M) do
      fabric ← in_env M (Fabric.open_fabric M info)
      in_env M (
          owning M fabric (Fabric.drop M) do
            f ← me M
            result ← attempt (in_env M (listen fuel info timeout f))
            closed ← attempt (Fabric.close M)
            throw (finish result closed))
