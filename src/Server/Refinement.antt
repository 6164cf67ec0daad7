-- ===== src/Server/Refinement.antt =====
-- src/bin/server.rs: `serve` refines the server's state machine.
use rdma_prototype.Base.{
  ◌≡◌, ◌∙◌, ap, ℕ, zero, suc, ◌+◌, ◌≤◌, true, List, [], ◌∷◌, Option, none, some, arith, ltb,
  if◌then◌else◌, inl, inr, Bool-cases,
}
use mathlib.Core.Path.{subst}
use rdma_prototype.State.Server.{Exchange, new}
use rdma_prototype.Outcome.{Outcome, ok, err, panic, unfinished, server_timeout}
use rdma_prototype.Machine.{Machine, At, raise, ◌>>=◌, in_env, do_now}
use rdma_prototype.Machine.Logic.{Leaves, Leaves-bind}
use rdma_prototype.Transport.Connection.{Connection}
use rdma_prototype.Server.Exchange.{complete, hello_text, ack_text}
use rdma_prototype.Server.Conversation.{Item, heard, replied, Run, Run-conversation}
use rdma_prototype.Server.Serving.{Served, begins, looked, Served-Run, Served-accepted}
use rdma_prototype.Server.Loop.{round, follow, serve_until, serve}
use rdma_prototype.Server.Replies.{replies, complete-conversation, accepted_sends}
use rdma_prototype.Server.Replying.{RunSoFar, so_far, Replied, Rounded, round-Rounded}

module _ (M : Machine) where
  module _ (s : At M Connection) where
    -- The loop ends in a complete exchange, or leaves one behind.
    abbrev pub Completed : At M Connection → Type 0
    Completed t = (state : Exchange) × (complete state ≡ true) × Replied M s state t

    until-Completed :
        (fuel deadline : ℕ) (state : Exchange) (t : At M Connection)
        → Replied M s state t
        → Leaves (λ _ u. Completed u) (RunSoFar M s) (serve_until M fuel deadline state t)
    unfolding serve_until
    until-Completed zero deadline state t h = so_far M s state t h
    until-Completed (suc fuel) deadline state t h =
        Leaves-bind (λ _ u. Replied M s state u) (λ _ u. Completed u) (RunSoFar M s)
          (in_env M (do_now M))
          (λ now.
            if ltb now deadline
            then (round M state >>= follow (serve_until M fuel deadline))
            else raise (err (server_timeout state)))
          t (h.0, looked h.1)
          (λ now u k. elim (Bool-cases (ltb now deadline)) [
            | inl early ↦ rw early (
                Leaves-bind (Rounded M s) (λ _ u. Completed u) (RunSoFar M s) (round M state)
                  (follow (serve_until M fuel deadline)) u (round-Rounded M s state u k)
                  (followed (until-Completed fuel deadline)))
            | inr late ↦ rw late (so_far M s state u k)
          ])
      where
        followed :
            (again : (after : Exchange) (v : At M Connection)
              → Replied M s after v
              → Leaves (λ _ u. Completed u) (RunSoFar M s) (serve_until M fuel deadline after v))
            (o : Option Exchange) (v : At M Connection)
            → Rounded M s o v
            → Leaves (λ _ u. Completed u) (RunSoFar M s) (follow (serve_until M fuel deadline) o v)
        followed again none v m = m
        followed again (some after) v m = again after v m

    serve-Completed :
        (fuel timeout : ℕ) → Leaves (λ _ t. Completed t) (RunSoFar M s) (serve M fuel timeout s)
    unfolding serve
    serve-Completed fuel timeout =
        Leaves-bind (λ _ u. Replied M s new u) (λ _ u. Completed u) (RunSoFar M s)
          (in_env M (do_now M)) (λ started. serve_until M fuel (started + timeout) new) s
          ([], looked begins) (λ started u k. until-Completed fuel (started + timeout) new u k)

  -- From `s` to `t`, the polls of the connection returned the hello, then one reply was accepted, then
  -- the polls returned the ACK, and no other message came and no other send was accepted; the
  -- exchange that this makes is complete.
  abbrev pub Conversed : At M Connection → At M Connection → Type 0
  Conversed s t =
      (state : Exchange) × (complete state ≡ true)
      × Served M s state (heard hello_text ∷ replied ∷ heard ack_text ∷ []) t
      × (accepted_sends M t.env.trace ≡ 1 + accepted_sends M s.env.trace)

  -- `serve` refines the server's state machine, for every connection, timeout and number of rounds,
  -- and every behaviour of the foreign functions. If it ends well, it went from its start to its end by
  -- calls of `poll`, `post_recv`, `send`, the clock and the sleep, in which the polls returned the
  -- hello, then one reply was accepted, and then the polls returned the ACK, and no other message came
  -- and no other send was accepted; the state machine made of the events of these polls and of
  -- that send an exchange that is complete. If it ends otherwise, there is a run of the state
  -- machine with one reply for each send that the connection accepted.
  pub serve-Conversed :
      (fuel timeout : ℕ) (s : At M Connection)
      → Leaves (λ _ t. Conversed s t) (RunSoFar M s) (serve M fuel timeout s)
  serve-Conversed fuel timeout s =
      go (serve M fuel timeout s).0 (serve M fuel timeout s).1 (serve-Completed s fuel timeout)
    where
      go :
          (r : Outcome Unit) (t : At M Connection)
          → Leaves (λ _ t. Completed s t) (RunSoFar M s) (r, t)
          → Leaves (λ _ t. Conversed s t) (RunSoFar M s) (r, t)
      go (ok u) t (state, finished, (items, served)) =
          let e = Run-conversation (Served-Run served) ∙ complete-conversation state finished in
          (
            state,
            finished,
            subst (λ items. Served M s state items t) e served,
            omega (arith, Served-accepted served, ap replies e),
          )
      go (err e) t h = h
      go panic t h = h
      go unfinished t h = h

  -- However `serve` ends, the connection accepts at most one send of it.
  pub serve-le :
      (fuel timeout : ℕ) (s : At M Connection)
      → accepted_sends M (serve M fuel timeout s).1.env.trace ≤ 1 + accepted_sends M s.env.trace
  serve-le fuel timeout s =
      go (serve M fuel timeout s).0 (serve M fuel timeout s).1 (serve-Conversed fuel timeout s)
    where
      replies_le : (state : Exchange) (items : List Item) → Run state items → replies items ≤ 1
      replies_le state items run = rw (Run-conversation run) (ground (arith))

      left :
          (t : At M Connection)
          → RunSoFar M s t
          → accepted_sends M t.env.trace ≤ 1 + accepted_sends M s.env.trace
      left t (state, items, run, count) = omega (arith, count, replies_le state items run)

      go :
          (r : Outcome Unit) (t : At M Connection)
          → Leaves (λ _ t. Conversed s t) (RunSoFar M s) (r, t)
          → accepted_sends M t.env.trace ≤ 1 + accepted_sends M s.env.trace
      go (ok u) t (state, finished, served, count) = omega (arith, count)
      go (err e) t h = left t h
      go panic t h = left t h
      go unfinished t h = left t h
