-- ===== src/Server/Safety.antt =====
-- src/bin/server.rs: `serve` against a panic.
use rdma_prototype.Base.{ℕ, zero, suc, ◌+◌, Option, some, none, true, if◌then◌else◌, ltb, not}
use rdma_prototype.State.Server.{Exchange, new}
use rdma_prototype.Outcome.{Outcome, ok, err, panic, unfinished, server_timeout, Returns}
use rdma_prototype.Machine.{Machine, At, Exec, raise, pure, in_env, me, do_now, ◌>>=◌}
use rdma_prototype.Machine.Safety.{Preserves, Preserves-bind, Preserves-if}
use rdma_prototype.Transport.Connection.{Connection, poll, post_recv, send}
use rdma_prototype.Transport.Connection.Buffers.{
  HoldsAt, poll-Preserves, post_recv-Preserves, send-Preserves,
}
use rdma_prototype.Server.Exchange.{complete, world_text}
use rdma_prototype.Server.Accepting.{on_events-Returns}
use rdma_prototype.Server.Loop.{
  on_events, advance, round, serve_until, serve, follow, may_reply, receive_ready, send_world,
  pause, reply_round,
}

module _ (M : Machine) where
  raise-Preserves :
      {A : Type 0} (r : Outcome A) → Returns r → Preserves HoldsAt (raise {S = At M Connection} r)
  raise-Preserves (ok a) h s k = k
  raise-Preserves (err e) h s k = k
  raise-Preserves panic h s k = absurd h
  raise-Preserves unfinished h s k = absurd h

  pause-Preserves : (s : Exchange) → Preserves HoldsAt (pause M s)
  unfolding pause
  pause-Preserves s t h = h

  receive_ready-Preserves : Preserves HoldsAt (receive_ready M)
  unfolding receive_ready
  receive_ready-Preserves =
      Preserves-bind HoldsAt (me M) _ (λ s h. h)
        (λ c.
          Preserves-if HoldsAt c.rx.pending (pure true) (post_recv M) (λ s h. h)
            (post_recv-Preserves M))

  send_world-Preserves : (s : Exchange) → Preserves HoldsAt (send_world M s)
  unfolding send_world
  send_world-Preserves s =
      Preserves-bind HoldsAt (send M world_text) _ (send-Preserves M world_text) (λ accepted t h. h)

  reply_round-Preserves : (s : Exchange) → Preserves HoldsAt (reply_round M s)
  unfolding reply_round
  reply_round-Preserves s =
      let reply : Exec (At M Connection) (Option Exchange) = send_world M s >>= pause M in
      Preserves-bind HoldsAt (receive_ready M) (λ ready. if not ready then pure (some s) else reply)
        receive_ready-Preserves
        (λ ready.
          Preserves-if HoldsAt (not ready) (pure (some s)) reply (λ t h. h)
            (Preserves-bind HoldsAt (send_world M s) (pause M) (send_world-Preserves s)
              pause-Preserves))

  advance-Preserves : (s : Exchange) → Preserves HoldsAt (advance M s)
  unfolding advance
  advance-Preserves s =
      Preserves-if HoldsAt (complete s) (pure none) _ (λ t h. h)
        (Preserves-if HoldsAt (may_reply s) (reply_round M s) (pause M s) (reply_round-Preserves s)
          (pause-Preserves s))

  round-Preserves : (s : Exchange) → Preserves HoldsAt (round M s)
  unfolding round
  round-Preserves s = Preserves-bind HoldsAt (poll M) _ (poll-Preserves M) (λ events.
      Preserves-bind HoldsAt (raise (on_events s events)) (advance M)
        (raise-Preserves _ (on_events-Returns s events)) advance-Preserves)

  follow-Preserves :
      (again : Exchange → Exec (At M Connection) Unit)
      → ((s : Exchange) → Preserves HoldsAt (again s))
      → (next : Option Exchange) → Preserves HoldsAt (follow again next)
  follow-Preserves again h none = λ s k. k
  follow-Preserves again h (some after) = h after

  serve_until-Preserves :
      (fuel deadline : ℕ) (s : Exchange) → Preserves HoldsAt (serve_until M fuel deadline s)
  unfolding serve_until
  serve_until-Preserves zero deadline s = λ t h. h
  serve_until-Preserves (suc fuel) deadline s =
      let more : Exec (At M Connection) Unit = round M s >>= follow (serve_until M fuel deadline) in
      let late : Exec (At M Connection) Unit = raise (err (server_timeout s)) in
      Preserves-bind HoldsAt (in_env M (do_now M)) (λ t. if ltb t deadline then more else late)
        (λ s h. h)
        (λ t.
          Preserves-if HoldsAt (ltb t deadline) more late
            (Preserves-bind HoldsAt (round M s) (follow (serve_until M fuel deadline))
              (round-Preserves s)
              (follow-Preserves (serve_until M fuel deadline)
                (serve_until-Preserves fuel deadline)))
            (λ s h. h))

  pub serve-Preserves : (fuel timeout : ℕ) → Preserves HoldsAt (serve M fuel timeout)
  unfolding serve
  serve-Preserves fuel timeout =
      Preserves-bind HoldsAt (in_env M (do_now M)) _ (λ s h. h)
        (λ start. serve_until-Preserves fuel (start + timeout) new)
