-- ===== src/Examples/Runs.antt =====
-- Both applications from their arguments to their end, on the bench.
use rdma_prototype.Base.{refl, false, arith, [], ◌∷◌, none}
use rdma_prototype.Machine.Safety.{Safe}
use rdma_prototype.Client.Run.{run as client_run}
use rdma_prototype.Client.Safety.{client_run-Safe}
use rdma_prototype.Client.RunTermination.{client_run-IsAnswer}
use rdma_prototype.Machine.Halting.{IsAnswer}
use rdma_prototype.Server.Run.{run as server_run}
use rdma_prototype.Server.RunSafety.{server_run-Safe}
use rdma_prototype.Transport.Request.{Request}
use rdma_prototype.Server.Run.{accept_one}
use rdma_prototype.Server.Rejection.{RejectsOnce, accept_one-RejectsOnce}
use rdma_prototype.Examples.Bench.{bench, bench_env, bench_clock}

client_run-Safe_example :
    Safe
      (λ _ _. Unit)
      (λ _. Unit)
      (client_run bench 3 (b'1' ∷ []) (b'7' ∷ []) none 2000000 bench_env)
client_run-Safe_example = client_run-Safe bench 3 (b'1' ∷ []) (b'7' ∷ []) none 2000000 bench_env

server_run-Safe_example :
    Safe
      (λ _ _. Unit)
      (λ _. Unit)
      (server_run bench 3 (b'1' ∷ []) (b'7' ∷ []) none 2000000 bench_env)
server_run-Safe_example = server_run-Safe bench 3 (b'1' ∷ []) (b'7' ∷ []) none 2000000 bench_env

client_run-IsAnswer_example :
    IsAnswer (client_run bench 3 (b'1' ∷ []) (b'7' ∷ []) none 2000000 bench_env).0
client_run-IsAnswer_example =
    client_run-IsAnswer bench_clock 2 2000000 (omega arith) (b'1' ∷ []) (b'7' ∷ []) none bench_env

-- A request that waits on the bench.
abbrev waiting : Request
waiting = record {
  listener = record { fabric = record { raw = 1 }; raw = 2; eq = 3 };
  info = record { raw = 4 };
  handled = false;
}

accept_one-RejectsOnce_example :
    RejectsOnce bench bench_env (accept_one bench 3 2000000 waiting bench_env)
accept_one-RejectsOnce_example = accept_one-RejectsOnce bench 3 2000000 waiting bench_env refl
