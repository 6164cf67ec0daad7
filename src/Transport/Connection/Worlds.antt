-- ===== src/Transport/Connection/Worlds.antt =====
-- How `post_recv`, `send` and `poll` move the environment: by their calls alone.
use rdma_prototype.Base.{ℕ, List, ◌++◌, inl, inr, Option-cases, arith}
use rdma_prototype.State.{Event}
use rdma_prototype.Machine.{Machine, At, Env, Exec, pure, raise, ◌>>=◌, do_status, do_store}
use rdma_prototype.Machine.Laws.{Steps, Posts, Runs, Runs-bind}
use rdma_prototype.Ffi.{Ptr, Status}
use rdma_prototype.Transport.Connection.Post.{send_of}
use rdma_prototype.Transport.Connection.{
  Connection, post_recv, send, both, poll, poll_tx, poll_rx, poll_connection, ensure_open,
}

module _ {M : Machine} {R : Env M → Env M → Type 0} (steps : Steps M R) where
  poll_tx-Runs : (s : At M Connection) → R s.env (poll_tx M s).1.env
  unfolding poll_tx
  poll_tx-Runs s = ground (arith, steps.here s.env, steps.cq_poll s.self.tx_cq s.env)

  poll_rx-Runs : (s : At M Connection) → R s.env (poll_rx M s).1.env
  unfolding poll_rx
  poll_rx-Runs s = ground (arith, steps.here s.env, steps.cq_poll s.self.rx_cq s.env)

  poll_connection-Runs : (s : At M Connection) → R s.env (poll_connection M s).1.env
  unfolding poll_connection
  poll_connection-Runs s = ground (arith, steps.here s.env, steps.eq_poll s.self.eq s.env)

  both-Runs :
      (m n : Exec (At M Connection) (List Event))
      → Runs steps m
      → Runs steps n
      → Runs steps (both m n)
  both-Runs m n hm hn =
      Runs-bind steps m (λ first. n >>= λ second. pure (first ++ second)) hm
        (λ first.
          Runs-bind steps n (λ second. pure (first ++ second)) hn (λ second s. steps.here s.env))

  pub poll-Runs : (s : At M Connection) → R s.env (poll M s).1.env
  unfolding poll
  poll-Runs s =
      Runs-bind steps (raise (ensure_open s.self))
        (λ _. both (poll_tx M) (both (poll_rx M) (poll_connection M))) (λ t. steps.here t.env)
        (λ _.
          both-Runs (poll_tx M) (both (poll_rx M) (poll_connection M)) poll_tx-Runs
            (both-Runs (poll_rx M) (poll_connection M) poll_rx-Runs poll_connection-Runs))
        s

  module _ (posts : Posts M R) where
    pub post_recv-Runs : (s : At M Connection) → R s.env (post_recv M s).1.env
    unfolding post_recv
    post_recv-Runs s = grind (arith, steps.here s.env, posts.status)

    -- The write of a message to its buffer, and its submission.
    store_then_status :
        (p : Ptr) (text : List ℕ) (c : Status) (e : Env M)
        → R e (do_status M c (do_store M p text e).1).1
    store_then_status p text c e =
        steps.then (posts.store p text e) (posts.status c (do_store M p text e).1)

    pub send-Runs : (text : List ℕ) (s : At M Connection) → R s.env (send M text s).1.env
    unfolding send
    send-Runs text s = elim (Option-cases s.self.tx.bytes) [
      | inl gone ↦ ground (arith, steps.here s.env)
      | inr (b, there) ↦
          ground
            (arith, steps.here s.env, store_then_status b.ptr text (send_of M s.self b text) s.env)
    ]
