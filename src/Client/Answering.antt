-- ===== src/Client/Answering.antt =====
-- src/bin/clients.rs: what `main` does on each command line.
use rdma_prototype.Base.{ℕ, suc, ◌≡◌, refl, ◌≤◌, List, arith}
use rdma_prototype.Outcome.{Outcome, ok, err, panic, unfinished}
use rdma_prototype.Machine.{Machine, Env, resume}
use rdma_prototype.Machine.Clock.{Clocked}
use rdma_prototype.Machine.Halting.{IsAnswer}
use rdma_prototype.Args.{Settings, settings, duration}
use rdma_prototype.Args.Laws.{settings_bounds}
use rdma_prototype.Args.Reading.{Reads, settings-Reads, Reads-Returns, longest}
use rdma_prototype.Client.Run.{run}
use rdma_prototype.Client.RunTermination.{client_run-IsAnswer}
use rdma_prototype.Client.Main.{usage, main}

module _ (M : Machine) where
  -- What follows from the settings: a run of the client with them, or the error at once.
  abbrev pub Starts : ℕ → Env M → Outcome Settings → Outcome Unit × Env M → Type 0
  Starts fuel e (ok s) result = result ≡ run M fuel s.ip s.port s.domain (duration s.seconds) e
  Starts fuel e (err x) result = result ≡ (err x, e)
  Starts fuel e panic result = ⊥
  Starts fuel e unfinished result = ⊥

  -- On every command line, `main` of the client does what its usage says: with one to four arguments it
  -- runs with the address, the port or 7471, the domain or none, and the timeout or 30 seconds; with
  -- none or more than four it returns the usage, with a timeout that is no number the error that it is
  -- invalid, and with one that is not from 1 to 3600 the error that it has to be. On an error it
  -- makes no call.
  pub client_main-Reads :
      (fuel : ℕ) (args : List (List ℕ)) (e : Env M)
      → (r : Outcome Settings) × Reads usage args r × Starts fuel e r (main M fuel args e)
  unfolding main
  client_main-Reads fuel args e = (
    settings usage args,
    settings-Reads usage args,
    go (settings usage args) (settings-Reads usage args),
  )
    where
      go :
          (r : Outcome Settings)
          → Reads usage args r
          → Starts fuel e r (resume r (λ s. run M fuel s.ip s.port s.domain (duration s.seconds)) e)
      go (ok s) h = refl
      go (err x) h = refl
      go panic h = absurd (Reads-Returns h)
      go unfinished h = absurd (Reads-Returns h)

-- `main` of the client answers on every command line, with success or an error, when its loops have
-- 3600001 rounds of fuel, on a clock that does not go back and sleeps for the time it is asked to.
pub client_main-IsAnswer :
    {M : Machine} (clock : Clocked M) (args : List (List ℕ)) (e : Env M)
    → IsAnswer (main M (suc longest) args e).0
unfolding main IsAnswer
client_main-IsAnswer {M} clock args e =
    go (settings usage args) (settings-Reads usage args) (λ s h. (settings_bounds usage args s h).1)
  where
    go :
        (r : Outcome Settings)
        → Reads usage args r
        → ((s : Settings) → r ≡ ok s → s.seconds ≤ 3600)
        → IsAnswer
            (resume r (λ s. run M (suc longest) s.ip s.port s.domain (duration s.seconds)) e).0
    go (ok s) h bound =
        let small = bound s refl in
        client_run-IsAnswer clock longest (duration s.seconds) (omega arith) s.ip s.port s.domain e
    go (err x) h bound = tt
    go panic h bound = absurd (Reads-Returns h)
    go unfinished h bound = absurd (Reads-Returns h)
