-- ===== src/Server/Loop.antt =====
-- src/bin/server.rs: `serve`. A `println!` of an event is left out.
use rdma_prototype.Base.{
  ℕ, zero, suc, ◌+◌, Bool, true, not, ◌&&◌, List, Option, none, some, ltb, if◌then◌else◌,
}
use rdma_prototype.State.{Event}
use rdma_prototype.State.Server.{Exchange, ack, new}
use rdma_prototype.Outcome.{Outcome, err, unfinished, server_timeout}
use rdma_prototype.Events.{for_events}
use rdma_prototype.Machine.{
  Machine, At, Exec, pure, raise, ◌>>=◌, ◌>>◌, in_env, me, do_now, do_sleep,
}
use rdma_prototype.Transport.Listener.{millisecond}
use rdma_prototype.Transport.Connection.{Connection, post_recv, send, poll}
use rdma_prototype.Server.Exchange.{on_event, complete, is_reply, world_text}

-- The `for` loop over the events of one poll.
unfoldable pub on_events : Exchange → List Event → Outcome Exchange
unfolding for_events on_event
on_events = for_events on_event

-- The condition under which `serve` replies.
unfoldable pub may_reply : Exchange → Bool
may_reply s = s.connected && not s.peer_closed && is_reply s.phase

-- After a round: the loop returns, or goes on from the new state.
abbrev pub follow : {S X : Type 0} → (X → Exec S Unit) → Option X → Exec S Unit
follow again none = pure tt
follow again (some after) = again after

module _ (M : Machine) where
  -- `conn.receive_pending() || conn.post_recv()?`
  unfoldable pub receive_ready : Exec (At M Connection) Bool
  unfolding post_recv
  receive_ready = do c ← me M; if c.rx.pending then pure true else post_recv M

  -- `if conn.send(b"world")? { exchange.phase = Phase::Ack; }`
  unfoldable pub send_world : Exchange → Exec (At M Connection) Exchange
  unfolding send
  send_world state = do
    accepted ← send M world_text
    pure (if accepted then record state { phase = ack } else state)

  -- The end of a round.
  unfoldable pub pause : Exchange → Exec (At M Connection) (Option Exchange)
  pause state = do in_env M (do_sleep M millisecond); pure (some state)

  -- The reply, once a receive is posted for the ACK; a `continue` skips the sleep.
  unfoldable pub reply_round : Exchange → Exec (At M Connection) (Option Exchange)
  unfolding receive_ready send_world pause
  reply_round state = do
    ready ← receive_ready
    if not ready then pure (some state) else do after ← send_world state; pause after

  -- The round after the events of the poll: `none` where the exchange is complete.
  unfoldable pub advance : Exchange → Exec (At M Connection) (Option Exchange)
  unfolding complete may_reply reply_round pause
  advance state =
      if complete state
      then pure none
      else if may_reply state
      then reply_round state
      else pause state

  -- One round of the loop.
  unfoldable pub round : Exchange → Exec (At M Connection) (Option Exchange)
  unfolding on_events advance poll
  round state = do events ← poll M; next ← raise (on_events state events); advance next

  -- The `while` loop of `serve`, on fuel.
  unfoldable pub serve_until : ℕ → ℕ → Exchange → Exec (At M Connection) Unit
  unfolding round
  serve_until zero deadline state = raise unfinished
  serve_until (suc fuel) deadline state = do
    t ← in_env M (do_now M)
    if ltb t deadline
        then round state >>= follow (serve_until fuel deadline)
        else raise (err (server_timeout state))

  unfoldable pub serve : ℕ → ℕ → Exec (At M Connection) Unit
  unfolding serve_until
  serve fuel timeout = do start ← in_env M (do_now M); serve_until fuel (start + timeout) new
