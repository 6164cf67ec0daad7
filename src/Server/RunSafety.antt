-- ===== src/Server/RunSafety.antt =====
-- src/bin/server.rs: `run` against a panic.
use rdma_prototype.Base.{ℕ, List, Option}
use rdma_prototype.Machine.{Machine, Env}
use rdma_prototype.Machine.Safety.{Safe, Preserves-bind, NoPanic, owning-Safe, Safe-bind}
use rdma_prototype.Transport.Info
use rdma_prototype.Transport.Info.{Info}
use rdma_prototype.Transport.Fabric.{Fabric}
use rdma_prototype.Transport.Request
use rdma_prototype.Transport.Request.{Request, Listener}
use rdma_prototype.Transport.Listener
use rdma_prototype.Transport.Connection.Close
use rdma_prototype.Transport.Connection.Setup
use rdma_prototype.Transport.Connection.Buffers.{Holds}
use rdma_prototype.Transport.Safety.{
  close-NoPanic, from_request-Safe, wait_request-NoPanic, Listener_close-NoPanic, query-NoPanic,
  bind-NoPanic,
}
use rdma_prototype.Transport.Scopes.{NoPanic-worked, NoPanic-lent, NoPanic-in_info}
use rdma_prototype.Server.Loop.{serve}
use rdma_prototype.Server.Run.{accept_one, session, listen, run}
use rdma_prototype.Server.Safety.{serve-Preserves}

module _ (M : Machine) where
  accept_one-Safe :
      (fuel timeout : ℕ) (request : Request) (e : Env M)
      → Safe (λ c _. Holds c) (λ _. Unit) (accept_one M fuel timeout request e)
  unfolding accept_one
  accept_one-Safe fuel timeout request e =
      owning-Safe M Holds request (Request.drop M) (Setup.from_request M fuel timeout) e
        (from_request-Safe M fuel timeout (record { self = request; env = e }))

  session-NoPanic :
      (fuel timeout : ℕ) (listener : Listener) → NoPanic (session M fuel timeout listener)
  unfolding session
  session-NoPanic fuel timeout listener =
      Preserves-bind (λ _. Unit) (Listener.wait_request M fuel listener timeout) _
        (wait_request-NoPanic M fuel listener timeout)
        (λ request e _.
          Safe-bind (λ c _. Holds c) (λ _ _. Unit) (λ _. Unit) (accept_one M fuel timeout request) _
            e (accept_one-Safe fuel timeout request e)
            (λ conn u h.
              NoPanic-worked M Holds conn (Close.drop M) (serve M fuel timeout) (Close.close M) h
                (serve-Preserves M fuel timeout) (close-NoPanic M) u tt))

  listen-NoPanic :
      (fuel : ℕ) (info : Info) (timeout : ℕ) (fabric : Fabric)
      → NoPanic (listen M fuel info timeout fabric)
  unfolding listen
  listen-NoPanic fuel info timeout fabric =
      Preserves-bind (λ _. Unit) (Listener.bind M fabric info) _ (bind-NoPanic M fabric info)
        (λ listener.
          NoPanic-lent M listener (Listener.drop M) (session M fuel timeout) (Listener.close M)
            (session-NoPanic fuel timeout) (Listener_close-NoPanic M))

  run-NoPanic :
      (fuel : ℕ) (ip port : List ℕ) (domain : Option (List ℕ)) (timeout : ℕ)
      → NoPanic (run M fuel ip port domain timeout)
  unfolding run Info.local
  run-NoPanic fuel ip port domain timeout =
      Preserves-bind (λ _. Unit) (Info.local M ip port domain) _ (query-NoPanic M ip port domain _)
        (λ info.
          NoPanic-in_info M info (listen M fuel info timeout) (listen-NoPanic fuel info timeout))

  -- The server's `run` does not panic by an `unwrap` or a slice, whatever its arguments are and
  -- whatever the foreign functions answer, however many rounds its loops make.
  pub server_run-Safe :
      (fuel : ℕ) (ip port : List ℕ) (domain : Option (List ℕ)) (timeout : ℕ) (e : Env M)
      → Safe (λ _ _. Unit) (λ _. Unit) (run M fuel ip port domain timeout e)
  server_run-Safe fuel ip port domain timeout e = run-NoPanic fuel ip port domain timeout e tt
