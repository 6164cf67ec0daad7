-- ===== src/Transport/Waiting.antt =====
-- src/transport.rs: the loops of the transport and their fuel.
use rdma_prototype.Base.{
  ◌≡◌, ℕ, zero, suc, ◌+◌, ◌*◌, ◌≤◌, ◌<◌, List, Bool, true, false, Option, some, none, arith, ltb,
  leb, if◌then◌else◌,
}
use rdma_prototype.Outcome.{Outcome, ok, err, panic, unfinished, message}
use rdma_prototype.Machine.{
  Machine, At, Env, Exec, do_now, do_sleep, in_env, pure, raise, ◌>>=◌, ◌>>◌,
}
use rdma_prototype.Machine.Logic.{Finishes, Finishes-bind, Finishes-if}
use rdma_prototype.Machine.Halting.{Halted, Halts}
use rdma_prototype.Machine.Clock.{Clocked, Later-Steps, Later-Posts}
use rdma_prototype.Transport.Request.{Listener, Request}
use rdma_prototype.Transport.Listener
use rdma_prototype.Transport.Listener.{millisecond}
use rdma_prototype.Transport.Connection.{Connection, post_recv, poll}
use rdma_prototype.Transport.Connection.Setup
use rdma_prototype.Transport.Connection.Post.{PostsRecv, post_recv-PostsRecv}
use rdma_prototype.Transport.Connection.Polling.{Polls, poll-Polls}
use rdma_prototype.Transport.Connection.Worlds.{poll-Runs, post_recv-Runs}

-- With a clock that does not go back, and sleeps that last.
module _ {M : Machine} (clock : Clocked M) where
  abbrev clock_at : Env M → ℕ
  clock_at e = clock.time e.world

  pub now-Finishes :
      (e : Env M) → Finishes (λ t u. (t ≡ clock_at u) × (clock_at e ≤ clock_at u)) (do_now M e)
  now-Finishes e = (clock.now_reads e.world, clock.now_later e.world)

  poll-Finishes :
      (l : Listener) (e : Env M) → Finishes (λ _ u. clock_at e ≤ clock_at u) (Listener.poll M l e)
  unfolding Listener.poll
  poll-Finishes l e = ground (arith, clock.eq_poll_later l.eq e.world)

  -- A listener that waits, with `k` milliseconds to its deadline.
  found-Finishes :
      (again : Exec (Env M) Request) (polled : Option Request) (e : Env M)
      → Halted (again e)
      → Halted (
          (elim polled as (λ _. Exec (Env M) Request) [
            | some request ↦ pure request
            | none ↦ again
          ])
            e)
  found-Finishes again none e h = h
  found-Finishes again (some request) e h = tt

  slept-Finishes :
      {A : Type 0} (d : ℕ) (again : Exec (Env M) A) (e : Env M)
      → ((u : Env M) → clock_at e + d ≤ clock_at u → Halted (again u))
      → Halted ((do_sleep M d >> again) e)
  slept-Finishes d again e h = h (do_sleep M d e).1 (clock.sleep_later d e.world)

  late-Halted :
      {S A : Type 0} (t deadline : ℕ) (early late : Exec S A) (s : S)
      → deadline ≤ t
      → Halted (late s)
      → Halted ((if ltb t deadline then early else late) s)
  late-Halted t deadline early late s h k =
      Finishes-if (λ _ _. Unit) (ltb t deadline) early late s (λ timely. absurd (ground arith))
        (λ _. k)

  wait_until-Halted :
      (k deadline : ℕ) (l : Listener) (e : Env M)
      → deadline ≤ clock_at e + k * millisecond
      → Halted (Listener.wait_until M (suc k) deadline l e)
  unfolding Listener.wait_until
  wait_until-Halted zero deadline l e h =
      let again : Exec (Env M) Request =
        do_sleep M millisecond >> Listener.wait_until M zero deadline l in
      let look : Exec (Env M) Request = Listener.poll M l >>= λ polled. elim polled [
        | some request ↦ pure request
        | none ↦ again
      ] in
      let late : Exec (Env M) Request =
        raise (err (message "timeout waiting for a connection request")) in
      Finishes-bind (λ t u. (t ≡ clock_at u) × (clock_at e ≤ clock_at u)) (λ _ _. Unit) (do_now M)
        (λ t. if ltb t deadline then look else late) e (now-Finishes e)
        (λ t u m. late-Halted t deadline look late u (omega arith) tt)
  wait_until-Halted (suc k) deadline l e h =
      let again : Exec (Env M) Request =
        do_sleep M millisecond >> Listener.wait_until M (suc k) deadline l in
      let look : Exec (Env M) Request = Listener.poll M l >>= λ polled. elim polled [
        | some request ↦ pure request
        | none ↦ again
      ] in
      let late : Exec (Env M) Request =
        raise (err (message "timeout waiting for a connection request")) in
      Finishes-bind (λ t u. (t ≡ clock_at u) × (clock_at e ≤ clock_at u)) (λ _ _. Unit) (do_now M)
        (λ t. if ltb t deadline then look else late) e (now-Finishes e)
        (λ t u m.
          Finishes-if (λ _ _. Unit) (ltb t deadline) look late u
            (λ _.
              Finishes-bind (λ _ v. clock_at u ≤ clock_at v) (λ _ _. Unit) (Listener.poll M l) _ u
                (poll-Finishes l u)
                (λ polled v q. found-Finishes again polled v (
                  slept-Finishes millisecond (Listener.wait_until M (suc k) deadline l) v
                    (λ x r. wait_until-Halted k deadline l x (omega arith)))))
            (λ _. tt))

  -- `wait_request` with one round of fuel for each millisecond of its timeout, and one more.
  pub wait_request-Halts :
      (k : ℕ) (l : Listener) (timeout : ℕ)
      → timeout ≤ k * millisecond
      → Halts (Listener.wait_request M (suc k) l timeout)
  unfolding Listener.wait_request
  wait_request-Halts k l timeout h e =
      Finishes-bind (λ t u. (t ≡ clock_at u) × (clock_at e ≤ clock_at u)) (λ _ _. Unit) (do_now M)
        (λ start. Listener.wait_until M (suc k) (start + timeout) l) e (now-Finishes e)
        (λ start u m. wait_until-Halted k (start + timeout) l u (omega arith))

  recv-Finishes :
      (s : At M Connection) → Finishes (λ _ t. clock_at s.env ≤ clock_at t.env) (post_recv M s)
  recv-Finishes s =
      go (post_recv M s).0 (post_recv M s).1 (post_recv-PostsRecv M s)
        (post_recv-Runs (Later-Steps clock) (Later-Posts clock) s)
    where
      go :
          (r : Outcome Bool) (t : At M Connection)
          → PostsRecv M s (r, t)
          → clock_at s.env ≤ clock_at t.env
          → Finishes (λ _ t. clock_at s.env ≤ clock_at t.env) (r, t)
      go (ok b) t h p = p
      go (err e) t h p = tt
      go panic t h p = tt
      go unfinished t h p = elim h [ ]

  pub polled-Finishes :
      (s : At M Connection) → Finishes (λ _ t. clock_at s.env ≤ clock_at t.env) (poll M s)
  polled-Finishes s =
      go (poll M s).0 (poll M s).1 (poll-Polls M s) (poll-Runs (Later-Steps clock) s)
    where
      go :
          (r : Outcome (List _)) (t : At M Connection)
          → Polls M s (r, t)
          → clock_at s.env ≤ clock_at t.env
          → Finishes (λ _ t. clock_at s.env ≤ clock_at t.env) (r, t)
      go (ok events) t h p = p
      go (err e) t h p = tt
      go panic t h p = tt
      go unfinished t h p = elim h [ ]

  -- The retries of the first receive, with `k` milliseconds to the deadline.
  module _ (deadline n : ℕ) where
    abbrev retry : Exec (At M Connection) Unit
    retry = poll M >> (in_env M (do_sleep M millisecond) >> Setup.post_until M n deadline)

    abbrev timed_out : Exec (At M Connection) Unit
    timed_out = raise (err (message "receive submission timeout"))

    abbrev after_now : ℕ → Exec (At M Connection) Unit
    after_now t = if leb deadline t then timed_out else retry

    abbrev after_post : Bool → Exec (At M Connection) Unit
    after_post posted = if posted then pure tt else (in_env M (do_now M) >>= after_now)

    retry-Halted :
        (lo : ℕ)
        → ((v : At M Connection)
            → lo + millisecond ≤ clock_at v.env
            → Halted (Setup.post_until M n deadline v))
        → (s : At M Connection) → lo ≤ clock_at s.env
        → Halted (retry s)
    retry-Halted lo next s h =
        Finishes-bind (λ _ t. clock_at s.env ≤ clock_at t.env) (λ _ _. Unit) (poll M) _ s
          (polled-Finishes s)
          (λ _ t p.
            next (in_env M (do_sleep M millisecond) t).1
              (omega (arith, clock.sleep_later millisecond t.env.world)))

    now_at-Finishes :
        (s : At M Connection)
        → Finishes
            (λ t u. (t ≡ clock_at u.env) × (clock_at s.env ≤ clock_at u.env))
            (in_env M (do_now M) s)
    now_at-Finishes s = now-Finishes s.env

    -- It goes on only before its deadline, and a millisecond later.
    after_post-Halted :
        (lo : ℕ)
        → (lo < deadline
            → (v : At M Connection) → lo + millisecond ≤ clock_at v.env
            → Halted (Setup.post_until M n deadline v))
        → (posted : Bool) (s : At M Connection) → lo ≤ clock_at s.env
        → Halted (after_post posted s)
    after_post-Halted lo next true s h = tt
    after_post-Halted lo next false s h =
        Finishes-bind (λ t u. (t ≡ clock_at u.env) × (clock_at s.env ≤ clock_at u.env))
          (λ _ _. Unit) (in_env M (do_now M)) after_now s (now_at-Finishes s)
          (λ t u m.
            Finishes-if (λ _ _. Unit) (leb deadline t) timed_out retry u (λ _. tt)
              (λ early. retry-Halted lo (next (ground arith)) u (omega arith)))

    step-Halted :
        (s : At M Connection)
        → (clock_at s.env < deadline
            → (v : At M Connection) → clock_at s.env + millisecond ≤ clock_at v.env
            → Halted (Setup.post_until M n deadline v))
        → Halted ((post_recv M >>= after_post) s)
    step-Halted s next =
        Finishes-bind (λ _ t. clock_at s.env ≤ clock_at t.env) (λ _ _. Unit) (post_recv M)
          after_post s (recv-Finishes s)
          (λ posted t p. after_post-Halted (clock_at s.env) next posted t p)

  pub post_until-Halted :
      (k deadline : ℕ) (s : At M Connection)
      → deadline ≤ clock_at s.env + k * millisecond
      → Halted (Setup.post_until M (suc k) deadline s)
  unfolding Setup.post_until
  post_until-Halted zero deadline s h = step-Halted deadline zero s (λ early. absurd (omega arith))
  post_until-Halted (suc k) deadline s h =
      step-Halted deadline (suc k) s (λ _ v p. post_until-Halted k deadline v (omega arith))
