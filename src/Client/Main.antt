-- ===== src/Client/Main.antt =====
-- src/bin/clients.rs: `main`. What it prints is left out, and with it the version that it asks for.
use rdma_prototype.Base.{ℕ, List, String}
use rdma_prototype.Machine.{Machine, Env, Exec, raise, ◌>>=◌}
use rdma_prototype.Args.{settings, duration}
use rdma_prototype.Client.Run.{run}

abbrev pub usage : String
usage = "usage: clients <server-rxe-ip> [port=7471] [local-domain] [timeout-seconds=30]"

module _ (M : Machine) where
  unfoldable pub main : ℕ → List (List ℕ) → Exec (Env M) Unit
  unfolding settings run
  main fuel args = do
    s ← raise (settings usage args)
    run M fuel s.ip s.port s.domain (duration s.seconds)
