-- ===== src/Server/Termination.antt =====
-- The server's loop and its fuel. A `continue` after EAGAIN does not sleep, so its fuel is one round for
-- each millisecond and one for each EAGAIN that is answered meanwhile.
use rdma_prototype.Base.{
  ℕ, zero, suc, ◌+◌, ◌*◌, ◌≤◌, ◌<◌, ◌≡◌, ◌≢◌, ◌⊎◌, inl, inr, false, Option, none, some, arith, ltb,
  Bool-cases, if◌then◌else◌,
}
use rdma_prototype.State.Server.{Exchange, new}
use rdma_prototype.Outcome.{Outcome, ok, err, panic, unfinished, server_timeout}
use rdma_prototype.Machine.{Machine, At, Exec, raise, ◌>>=◌, in_env, do_now}
use rdma_prototype.Machine.Logic.{Finishes, Ends, Ends-bind}
use rdma_prototype.Machine.Clock.{Clocked, refusals}
use rdma_prototype.Transport.Listener.{millisecond}
use rdma_prototype.Transport.Connection.{Connection}
use rdma_prototype.Server.Loop.{round, follow, serve_until, serve}
use rdma_prototype.Server.Pace.{Moved, round-Moved}

module _ {M : Machine} (clock : Clocked M) where
  abbrev time : At M Connection → ℕ
  time s = clock.time s.env.world

  abbrev refused : At M Connection → ℕ
  refused s = refusals M s.env.trace

  -- More than `most` EAGAIN answers are in the trace.
  abbrev pub RefusedOver : ℕ → At M Connection → Type 0
  RefusedOver most t = most < refused t

  -- The fuel `n` is enough from a state, up to that many EAGAIN answers: `k` milliseconds are left.
  abbrev Enough : (most n k deadline : ℕ) → At M Connection → Type 0
  Enough most n k deadline s = (deadline ≤ time s + k * millisecond) × (most + k < n + refused s)

  module _ (again : Exchange → Exec (At M Connection) Unit) (most deadline n : ℕ)
      (hyp : (k : ℕ) (state : Exchange) (s : At M Connection)
        → Enough most n k deadline s
        → Ends (λ _ _. Unit) (RefusedOver most) (again state s)) where
    follow-Ends :
        (k lo seen : ℕ) (o : Option Exchange) (t : At M Connection)
        → deadline ≤ lo + suc k * millisecond
        → most + suc k < suc n + seen
        → Moved clock lo seen o t
        → Ends (λ _ _. Unit) (RefusedOver most) (follow again o t)
    follow-Ends k lo seen none t h e m = tt
    follow-Ends k lo seen (some after) t h e (inl slept) = hyp k after t (omega arith, omega arith)
    follow-Ends k lo seen (some after) t h e (inr more) =
        hyp (suc k) after t (omega arith, omega arith)

    timely-Ends :
        (k : ℕ) (state : Exchange) (t : ℕ) (s : At M Connection)
        → t ≡ time s
        → Enough most (suc n) k deadline s
        → Ends
            (λ _ _. Unit)
            (RefusedOver most)
            ((if ltb t deadline
                then round M state >>= follow again
                else raise (err (server_timeout state)))
              s)
    timely-Ends zero state t s e h = let late : ltb t deadline ≡ false = ground arith in rw late tt
    timely-Ends (suc k) state t s e h = elim (Bool-cases (ltb t deadline)) [
      | inl early ↦ rw early (
          Ends-bind (Moved clock (time s) (refused s)) (λ _ _. Unit) (RefusedOver most)
            (round M state) (follow again) s
            (round-Moved clock (time s) (refused s) state s (omega arith) (omega arith))
            (λ o u m. follow-Ends k (time s) (refused s) o u h.0 h.1 m))
      | inr late ↦ rw late tt
    ]

  now-After :
      (s : At M Connection)
      → Finishes
          (λ t u. (t ≡ time u) × (time s ≤ time u) × (refused s ≤ refused u))
          (in_env M (do_now M) s)
  now-After s = (clock.now_reads s.env.world, clock.now_later s.env.world, omega arith)

  until-Ends :
      (most n deadline k : ℕ) (state : Exchange) (s : At M Connection)
      → Enough most n k deadline s
      → Ends (λ _ _. Unit) (RefusedOver most) (serve_until M n deadline state s)
  unfolding serve_until
  until-Ends most zero deadline k state s h = omega arith
  until-Ends most (suc n) deadline k state s h =
      Ends-bind (λ t u. (t ≡ time u) × (time s ≤ time u) × (refused s ≤ refused u)) (λ _ _. Unit)
        (RefusedOver most) (in_env M (do_now M)) _ s (now-After s)
        (λ t u m.
          timely-Ends (serve_until M n deadline) most deadline n (until-Ends most n deadline) k
            state t u m.0 (omega arith, omega arith))

  pub serve-Ends :
      (k most timeout : ℕ) (s : At M Connection)
      → timeout ≤ k * millisecond
      → Ends
          (λ _ _. Unit)
          (RefusedOver (most + refusals M s.env.trace))
          (serve M (suc (k + most)) timeout s)
  unfolding serve
  serve-Ends k most timeout s h =
      Ends-bind (λ t u. (t ≡ time u) × (time s ≤ time u) × (refused s ≤ refused u)) (λ _ _. Unit)
        (RefusedOver (most + refused s)) (in_env M (do_now M))
        (λ start. serve_until M (suc (k + most)) (start + timeout) new) s (now-After s)
        (λ start u m.
          until-Ends (most + refused s) (suc (k + most)) (start + timeout) k new u
            (omega arith, omega arith))

  -- On a clock that does not go back and sleeps for the time it is asked to, with one round of fuel for
  -- each millisecond of the timeout, `most` more and one, `serve` runs out of fuel only where its calls
  -- of `shim_post_recv` were answered by EAGAIN more than `most` times: it spends a round without
  -- sleeping only on such an answer.
  pub serve-Halts :
      (k most timeout : ℕ) (s : At M Connection)
      → timeout ≤ k * millisecond
      → let (r, t) = serve M (suc (k + most)) timeout s in
        (r ≢ unfinished) ⊎ (most + refusals M s.env.trace < refusals M t.env.trace)
  serve-Halts k most timeout s h =
      let ended = serve M (suc (k + most)) timeout s in
      go ended.0 ended.1 (serve-Ends k most timeout s h)
    where
      go :
          (r : Outcome Unit) (t : At M Connection)
          → Ends (λ _ _. Unit) (RefusedOver (most + refusals M s.env.trace)) (r, t)
          → (r ≢ unfinished) ⊎ (most + refusals M s.env.trace < refusals M t.env.trace)
      go (ok u) t k = inl (λ e. cc)
      go (err x) t k = inl (λ e. cc)
      go panic t k = inl (λ e. cc)
      go unfinished t k = inr k
