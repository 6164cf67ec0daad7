-- ===== src/Client/Loop.antt =====
-- src/bin/clients.rs: `exchange`, over any implementation of the trait `ClientIo`. A `println!`
-- of an event is left out.
use rdma_prototype.Base.{ℕ, zero, suc, ◌+◌, Bool, List, Option, none, some, ltb, if◌then◌else◌}
use rdma_prototype.State.{Event}
use rdma_prototype.State.Client.{Exchange, Message, bytes, default}
use rdma_prototype.Outcome.{Outcome, err, unfinished, client_timeout}
use rdma_prototype.Events.{for_events}
use rdma_prototype.Machine.{Exec, pure, raise, ◌>>=◌, ◌>>◌}
use rdma_prototype.Client.Exchange.{on_event, next_message, posted, complete}

-- The trait `ClientIo`, over a state that the implementation owns.
pub record ClientIo (S : Type 0) : Type 0 where
  pub poll : Exec S (List Event)
  pub send : List ℕ → Exec S Bool

-- `Instant::now` and `thread::sleep` of one millisecond, over the same state.
pub record Clock (S : Type 0) : Type 0 where
  pub now : Exec S ℕ
  pub sleep : Exec S Unit

-- The `for` loop over the events of one poll.
unfoldable pub on_events : Exchange → List Event → Outcome Exchange
unfolding for_events on_event
on_events = for_events on_event

-- After a round: the loop returns, or goes on from the new state.
abbrev pub follow : {S X : Type 0} → (X → Exec S Unit) → Option X → Exec S Unit
follow again none = pure tt
follow again (some after) = again after

module _ {S : Type 0} (io : ClientIo S) (clock : Clock S) where
  -- `if let Some(message) = state.next_message() && io.send(…)? { state.posted(message) }`
  unfoldable pub send_due : Exchange → Option Message → Exec S Exchange
  unfolding posted
  send_due state none = pure state
  send_due state (some message) = do
    accepted ← io.send (bytes message)
    pure (if accepted then posted message state else state)

  unfoldable pub submit : Exchange → Exec S Exchange
  unfolding next_message send_due
  submit state = send_due state (next_message state)

  -- The round after the events of the poll: `none` where the exchange is complete.
  unfoldable pub advance : Exchange → Exec S (Option Exchange)
  unfolding complete submit
  advance state =
      if complete state then pure none else do after ← submit state; clock.sleep; pure (some after)

  -- One round of the loop.
  unfoldable pub round : Exchange → Exec S (Option Exchange)
  unfolding on_events advance
  round state = do events ← io.poll; next ← raise (on_events state events); advance next

  -- The `while` loop of `exchange`, on fuel.
  unfoldable pub exchange_until : ℕ → ℕ → Exchange → Exec S Unit
  unfolding round
  exchange_until zero deadline state = raise unfinished
  exchange_until (suc fuel) deadline state = do
    t ← clock.now
    if ltb t deadline
        then round state >>= follow (exchange_until fuel deadline)
        else raise (err (client_timeout state))

  unfoldable pub exchange : ℕ → ℕ → Exec S Unit
  unfolding exchange_until
  exchange fuel timeout = do start ← clock.now; exchange_until fuel (start + timeout) default
