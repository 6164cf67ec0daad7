-- ===== src/Server/RunTermination.antt =====
-- src/bin/server.rs: `run` and the fuel of its loops.
use rdma_prototype.Base.{ℕ, suc, ◌+◌, ◌*◌, ◌≤◌, ◌<◌, ◌⊎◌, inl, inr, List, [], Option, arith}
use rdma_prototype.Outcome.{Outcome, ok, err, panic, unfinished}
use rdma_prototype.Machine.{Machine, At, Env}
use rdma_prototype.Machine.Clock.{Clocked, refusals, Grown}
use rdma_prototype.Machine.Logic.{Ends}
use rdma_prototype.Machine.Safety.{Safe}
use rdma_prototype.Machine.Halting.{IsAnswer, Halts, Halts-owning}
use rdma_prototype.Machine.Lasting.{Lasts, Lasted, Lasts-Halts, Lasts-bind, AtEnv}
use rdma_prototype.Server.RunSafety.{server_run-Safe}
use rdma_prototype.Transport.Info
use rdma_prototype.Transport.Info.{Info}
use rdma_prototype.Transport.Fabric
use rdma_prototype.Transport.Fabric.{Fabric}
use rdma_prototype.Transport.Request
use rdma_prototype.Transport.Request.{Request, Listener}
use rdma_prototype.Transport.Listener
use rdma_prototype.Transport.Listener.{millisecond}
use rdma_prototype.Transport.Connection.{Connection}
use rdma_prototype.Transport.Connection.Close
use rdma_prototype.Transport.Connection.Setup
use rdma_prototype.Transport.Halting.{query-Halts, bind-Halts, close-Halts, Listener_close-Halts}
use rdma_prototype.Transport.Refusals.{
  drop-Grown, Listener_drop-Grown, Fabric_drop-Grown, Info_drop-Grown,
}
use rdma_prototype.Transport.Waiting.{wait_request-Halts}
use rdma_prototype.Transport.Construction.{from_request-Halts}
use rdma_prototype.Transport.Spending.{Lasts-worked, Lasts-lent, Lasts-in_info}
use rdma_prototype.Server.Loop.{serve}
use rdma_prototype.Server.Run.{accept_one, session, listen, run}
use rdma_prototype.Server.Termination.{RefusedOver, serve-Ends}

module _ {M : Machine} (clock : Clocked M) (k most timeout : ℕ)
    (fits : timeout ≤ k * millisecond) where
  -- One round for each millisecond, `most` for EAGAIN, and one more.
  abbrev fuel : ℕ
  fuel = suc (k + most)

  longer : timeout ≤ (k + most) * millisecond
  longer = omega (arith, fits)

  -- More than `most` posted receives were answered by EAGAIN.
  abbrev Refused : Env M → Type 0
  Refused e = most < refusals M e.trace

  Refused-kept :
      {T : Type 0} (drop : T → Env M → Env M)
      → ((t : T) (e : Env M) → Grown M e (drop t e))
      → (t : T) (e : Env M) → Refused e
      → Refused (drop t e)
  Refused-kept drop grown t e h = omega (arith, h, grown t e)

  accept_one-Halts : (request : Request) → Halts (accept_one M fuel timeout request)
  unfolding accept_one
  accept_one-Halts request =
      Halts-owning M request (Request.drop M) (Setup.from_request M fuel timeout)
        (from_request-Halts clock (k + most) timeout longer)

  serve-Lasts : Lasts (AtEnv M Refused) (serve M fuel timeout)
  serve-Lasts s =
      go (serve M fuel timeout s).0 (serve M fuel timeout s).1
        (serve-Ends clock k most timeout s fits)
    where
      go :
          (r : Outcome Unit) (t : At M Connection)
          → Ends (λ _ _. Unit) (RefusedOver clock (most + refusals M s.env.trace)) (r, t)
          → Lasted (AtEnv M Refused) (r, t)
      go (ok u) t h = tt
      go (err e) t h = tt
      go panic t h = tt
      go unfinished t h = omega (arith, h)

  session-Lasts : (listener : Listener) → Lasts Refused (session M fuel timeout listener)
  unfolding session
  session-Lasts listener =
      Lasts-bind Refused (Listener.wait_request M fuel listener timeout) _
        (Lasts-Halts Refused (Listener.wait_request M fuel listener timeout)
          (wait_request-Halts clock (k + most) listener timeout longer))
        (λ request.
          Lasts-bind Refused (accept_one M fuel timeout request) _
            (Lasts-Halts Refused (accept_one M fuel timeout request) (accept_one-Halts request))
            (λ conn.
              Lasts-worked M Refused conn (Close.drop M) (serve M fuel timeout) (Close.close M)
                (Refused-kept (Close.drop M) (drop-Grown M)) serve-Lasts (close-Halts M)))

  listen-Lasts : (info : Info) (fabric : Fabric) → Lasts Refused (listen M fuel info timeout fabric)
  unfolding listen
  listen-Lasts info fabric =
      Lasts-bind Refused (Listener.bind M fabric info) _
        (Lasts-Halts Refused (Listener.bind M fabric info) (bind-Halts M fabric info))
        (λ listener.
          Lasts-lent M Refused listener (Listener.drop M) (session M fuel timeout)
            (Listener.close M) (Refused-kept (Listener.drop M) (Listener_drop-Grown M))
            session-Lasts (Listener_close-Halts M))

  run-Lasts :
      (ip port : List ℕ) (domain : Option (List ℕ))
      → Lasts Refused (run M fuel ip port domain timeout)
  unfolding run Info.local
  run-Lasts ip port domain =
      Lasts-bind Refused (Info.local M ip port domain) _
        (Lasts-Halts Refused (Info.local M ip port domain) (query-Halts M ip port domain _))
        (λ info.
          Lasts-in_info M Refused info (listen M fuel info timeout)
            (Refused-kept (Info.drop M) (Info_drop-Grown M))
            (Refused-kept (Fabric.drop M) (Fabric_drop-Grown M)) (listen-Lasts info))

-- The server's `run`, from a trace without calls, on a clock that does not go back and sleeps for the
-- time it is asked to: with one round of fuel for each millisecond of its timeout, `most` more and one,
-- it answers, with success or an error, unless more than `most` of its calls of `shim_post_recv` were
-- answered by EAGAIN, whatever the foreign functions answer.
pub server_run-Answers :
    {M : Machine} (clock : Clocked M) (k most timeout : ℕ) (fits : timeout ≤ k * millisecond)
    (ip port : List ℕ) (domain : Option (List ℕ)) (w : M.World)
    → let (r, e) =
        run M (suc (k + most)) ip port domain timeout (record { world = w; trace = [] }) in
      IsAnswer r ⊎ (most < refusals M e.trace)
unfolding IsAnswer
server_run-Answers {M} clock k most timeout fits ip port domain w =
    let begin : Env M = record { world = w; trace = [] } in
    let end = run M (suc (k + most)) ip port domain timeout begin in
    go end.0 end.1 (run-Lasts clock k most timeout fits ip port domain begin)
      (server_run-Safe M (suc (k + most)) ip port domain timeout begin)
  where
    go :
        (r : Outcome Unit) (e : Env M)
        → Ends (λ _ _. Unit) (λ (e : Env M). most < refusals M e.trace) (r, e)
        → Safe (λ _ _. Unit) (λ _. Unit) (r, e)
        → IsAnswer r ⊎ (most < refusals M e.trace)
    go (ok u) e h k = inl tt
    go (err x) e h k = inl tt
    go panic e h k = absurd k
    go unfinished e h k = inr h
