-- ===== src/Examples/CommandLine.antt =====
-- `main` and the command line of both applications, on concrete arguments.
use rdma_prototype.Base.{◌≡◌, refl, ℕ, List, [], ◌∷◌, some, ◌≤◌, ◌<◌, ◌⊎◌, ◌+◌, suc, arith, length}
use rdma_prototype.Outcome.{Outcome, ok, err, message}
use rdma_prototype.Args.{Settings, settings}
use rdma_prototype.Args.Laws.{decimal_before, decimal, settings-decimal, settings_bounds, rest_of}
use rdma_prototype.Args.Reading.{Reads, longest}
use rdma_prototype.Client.Main.{usage, main as client_main}
use rdma_prototype.Client.Answering.{Starts, client_main-Reads, client_main-IsAnswer}
use rdma_prototype.Server.Main.{main as server_main}
use rdma_prototype.Server.Answering.{server_main-Answers}
use rdma_prototype.Machine.Clock.{refusals}
use rdma_prototype.Machine.Halting.{IsAnswer}
use rdma_prototype.Examples.Bench.{bench, bench_env, bench_clock}

abbrev ip : List ℕ
ip = b'1' ∷ []

abbrev port : List ℕ
port = b'7' ∷ []

abbrev device : List ℕ
device = b'r' ∷ []

abbrev words : List (List ℕ)
words = ip ∷ port ∷ device ∷ decimal 25 ∷ []

abbrev read_words : Settings
read_words = record { ip = ip; port = port; domain = some device; seconds = 25 }

-- `clients 1 7 r +9` and `clients 1 7 r 3601`
signed_text :
    settings "usage" (ip ∷ port ∷ device ∷ (b'+' ∷ b'9' ∷ []) ∷ [])
    ≡ ok (record read_words { seconds = 9 })
unfolding settings
signed_text = refl

too_late :
    settings "usage" (ip ∷ port ∷ device ∷ decimal 3601 ∷ [])
    ≡ err (message "timeout must be between 1 and 3600 seconds")
unfolding settings decimal_before
too_late = refl

settings-decimal_example : settings "usage" words ≡ ok read_words
settings-decimal_example = settings-decimal "usage" ip port device 25 (omega arith) (omega arith)

settings_bounds_example :
    (1 ≤ 25) × (25 ≤ 3600) × (1 ≤ length words) × (length words ≤ 4) × (words ≡ ip ∷ rest_of words)
settings_bounds_example =
    settings_bounds "usage" words read_words
      (settings-decimal "usage" ip port device 25 (omega arith) (omega arith))

client_main-Reads_example :
    (r : Outcome Settings) × Reads usage words r
    × Starts bench 3 bench_env r (client_main bench 3 words bench_env)
client_main-Reads_example = client_main-Reads bench 3 words bench_env

client_main-IsAnswer_example : IsAnswer (client_main bench (suc longest) words bench_env).0
client_main-IsAnswer_example = client_main-IsAnswer bench_clock words bench_env

server_main-Answers_example :
    let (r, e) = server_main bench (suc (longest + 0)) words (record { world = 5; trace = [] }) in
    IsAnswer r ⊎ (0 < refusals bench e.trace)
server_main-Answers_example = server_main-Answers bench_clock 0 words 5
