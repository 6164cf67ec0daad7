-- ===== src/Server/Answering.antt =====
-- src/bin/server.rs: `main` and the fuel of its loops.
use rdma_prototype.Base.{ℕ, suc, ◌+◌, ◌≡◌, refl, ◌≤◌, ◌<◌, ◌⊎◌, inl, List, [], arith}
use rdma_prototype.Outcome.{Outcome, ok, err, panic, unfinished}
use rdma_prototype.Machine.{Machine, Env, resume}
use rdma_prototype.Machine.Clock.{Clocked, refusals}
use rdma_prototype.Machine.Halting.{IsAnswer}
use rdma_prototype.Args.{Settings, settings, duration}
use rdma_prototype.Args.Laws.{settings_bounds}
use rdma_prototype.Args.Reading.{Reads, settings-Reads, Reads-Returns, longest}
use rdma_prototype.Server.Run.{run}
use rdma_prototype.Server.RunTermination.{server_run-Answers}
use rdma_prototype.Server.Main.{usage, main}

-- `main` of the server, from a trace without calls, on a clock that does not go back and sleeps for
-- the time it is asked to: on every command line, when its loops have 3600001 rounds of fuel and
-- `most` more, it answers, with success or an error, unless more than `most` of its calls of
-- `shim_post_recv` were answered by EAGAIN.
pub server_main-Answers :
    {M : Machine} (clock : Clocked M) (most : ℕ) (args : List (List ℕ)) (w : M.World)
    → let (r, e) = main M (suc (longest + most)) args (record { world = w; trace = [] }) in
      IsAnswer r ⊎ (most < refusals M e.trace)
unfolding main IsAnswer
server_main-Answers {M} clock most args w =
    go (settings usage args) (settings-Reads usage args) (λ s h. (settings_bounds usage args s h).1)
  where
    begin : Env M
    begin = record { world = w; trace = [] }

    go :
        (r : Outcome Settings)
        → Reads usage args r
        → ((s : Settings) → r ≡ ok s → s.seconds ≤ 3600)
        → let (q, e) =
            resume r
              (λ s. run M (suc (longest + most)) s.ip s.port s.domain (duration s.seconds))
              begin in
          IsAnswer q ⊎ (most < refusals M e.trace)
    go (ok s) h bound =
        let small = bound s refl in
        server_run-Answers clock longest most (duration s.seconds) (omega arith) s.ip s.port
          s.domain w
    go (err x) h bound = inl tt
    go panic h bound = absurd (Reads-Returns h)
    go unfinished h bound = absurd (Reads-Returns h)
