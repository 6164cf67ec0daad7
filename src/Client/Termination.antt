-- ===== src/Client/Termination.antt =====
-- The client's loop ends at its deadline: enough fuel is one round for each millisecond.
use rdma_prototype.Base.{
  ℕ, zero, suc, ◌+◌, ◌*◌, ◌≤◌, ◌≡◌, false, List, Option, none, some, inl, inr, Bool-cases, arith,
  ltb, if◌then◌else◌,
}
use rdma_prototype.State.Client.{Exchange, Message, bytes, default}
use rdma_prototype.Outcome.{Outcome, ok, err, panic, unfinished, Returns, client_timeout}
use rdma_prototype.Machine.{Exec, pure, raise, resume, ◌>>=◌, ◌>>◌}
use rdma_prototype.Machine.Logic.{Finishes, Finishes-bind}
use rdma_prototype.Transport.Listener.{millisecond}
use rdma_prototype.Client.Exchange.{next_message, posted, complete}
use rdma_prototype.Client.Accepting.{on_events-Returns}
use rdma_prototype.Client.Loop.{
  ClientIo, Clock, on_events, send_due, submit, advance, round, follow, exchange_until, exchange,
}

-- The clock never goes back, a sleep takes at least its millisecond, and `poll` and `send` end.
pub record ClockLaws {S : Type 0} (io : ClientIo S) (clock : Clock S) (time : S → ℕ) : Type 0 where
  pub now : (s : S) → Finishes (λ t u. (t ≡ time u) × (time s ≤ time u)) (clock.now s)
  pub sleep : (s : S) → Finishes (λ _ u. time s + millisecond ≤ time u) (clock.sleep s)
  pub poll : (s : S) → Finishes (λ _ u. time s ≤ time u) (io.poll s)
  pub send : (s : S) (text : List ℕ) → Finishes (λ _ u. time s ≤ time u) (io.send text s)

module _ {S : Type 0} {io : ClientIo S} {clock : Clock S} {time : S → ℕ}
    (laws : ClockLaws io clock time) where
  -- A round that does not end the loop takes a millisecond at least.
  abbrev Moved : ℕ → Option Exchange → S → Type 0
  Moved lo none u = Unit
  Moved lo (some after) u = lo + millisecond ≤ time u

  send_due-Finishes :
      (lo : ℕ) (state : Exchange) (o : Option Message) (s : S)
      → lo ≤ time s
      → Finishes (λ _ u. lo ≤ time u) (send_due io clock state o s)
  unfolding send_due
  send_due-Finishes lo state none s h = h
  send_due-Finishes lo state (some m) s h =
      Finishes-bind (λ _ u. time s ≤ time u) (λ _ u. lo ≤ time u) (io.send (bytes m))
        (λ accepted. pure (if accepted then posted m state else state)) s (laws.send s (bytes m))
        (λ a u k. omega arith)

  slept-Finishes :
      (lo : ℕ) (after : Exchange) (s : S)
      → lo ≤ time s
      → Finishes (Moved lo) ((clock.sleep >> pure (some after)) s)
  slept-Finishes lo after s h =
      Finishes-bind (λ _ u. time s + millisecond ≤ time u) (Moved lo) clock.sleep
        (λ _. pure (some after)) s (laws.sleep s) (λ a u k. omega arith)

  advance-Finishes :
      (lo : ℕ) (state : Exchange) (s : S)
      → lo ≤ time s
      → Finishes (Moved lo) (advance io clock state s)
  unfolding advance submit
  advance-Finishes lo state s h = elim (Bool-cases (complete state)) [
    | inl done ↦ rw (done, Finishes, Moved) tt
    | inr more ↦ rw more (
        Finishes-bind (λ _ u. lo ≤ time u) (Moved lo) (submit io clock state)
          (λ after. clock.sleep >> pure (some after)) s
          (send_due-Finishes lo state (next_message state) s h)
          (λ after u k. slept-Finishes lo after u k))
  ]

  -- The events of a poll, and the rest of the round.
  accepted-Finishes :
      (lo : ℕ) (r : Outcome Exchange) (s : S)
      → Returns r
      → lo ≤ time s
      → Finishes (Moved lo) (resume r (advance io clock) s)
  accepted-Finishes lo (ok next) s k h = advance-Finishes lo next s h
  accepted-Finishes lo (err e) s k h = tt
  accepted-Finishes lo panic s k h = tt
  accepted-Finishes lo unfinished s k h = absurd k

  round-Finishes :
      (lo : ℕ) (state : Exchange) (s : S)
      → lo ≤ time s
      → Finishes (Moved lo) (round io clock state s)
  unfolding round
  round-Finishes lo state s h =
      Finishes-bind (λ _ u. time s ≤ time u) (Moved lo) io.poll
        (λ events. raise (on_events state events) >>= advance io clock) s (laws.poll s)
        (λ events u k.
          accepted-Finishes lo (on_events state events) u (on_events-Returns state events)
            (omega arith))

  -- The loop reads the clock, and ends or goes on for a round.
  module _ (again : Exchange → Exec S Unit) (deadline k : ℕ)
      (hyp : (state : Exchange) (s : S)
        → deadline ≤ time s + k * millisecond
        → Finishes (λ _ _. Unit) (again state s)) where
    follow-Finishes :
        (lo : ℕ) (o : Option Exchange) (s : S)
        → deadline ≤ lo + suc k * millisecond
        → Moved lo o s
        → Finishes (λ _ _. Unit) (follow again o s)
    follow-Finishes lo none s h m = tt
    follow-Finishes lo (some after) s h m = hyp after s (omega arith)

    timely-Finishes :
        (state : Exchange) (t : ℕ) (s : S)
        → deadline ≤ time s + suc k * millisecond
        → Finishes
            (λ _ _. Unit)
            ((if ltb t deadline
                then round io clock state >>= follow again
                else raise (err (client_timeout state)))
              s)
    timely-Finishes state t s h = elim (Bool-cases (ltb t deadline)) [
      | inl early ↦ rw early (
          Finishes-bind (Moved (time s)) (λ _ _. Unit) (round io clock state) (follow again) s
            (round-Finishes (time s) state s (omega arith))
            (λ o u m. follow-Finishes (time s) o u h m))
      | inr late ↦ rw late tt
    ]

  -- Past the deadline no round is made.
  late-Finishes :
      (again : Exchange → Exec S Unit) (state : Exchange) (t deadline : ℕ) (s : S)
      → deadline ≤ t
      → Finishes
          (λ _ _. Unit)
          ((if ltb t deadline
              then round io clock state >>= follow again
              else raise (err (client_timeout state)))
            s)
  late-Finishes again state t deadline s h =
      let late : ltb t deadline ≡ false = ground arith in rw late tt

  until-Finishes :
      (k deadline : ℕ) (state : Exchange) (s : S)
      → deadline ≤ time s + k * millisecond
      → Finishes (λ _ _. Unit) (exchange_until io clock (suc k) deadline state s)
  unfolding exchange_until
  until-Finishes zero deadline state s h =
      Finishes-bind (λ t u. (t ≡ time u) × (time s ≤ time u)) (λ _ _. Unit) clock.now _ s
        (laws.now s)
        (λ t u m.
          late-Finishes (exchange_until io clock zero deadline) state t deadline u (omega arith))
  until-Finishes (suc k) deadline state s h =
      Finishes-bind (λ t u. (t ≡ time u) × (time s ≤ time u)) (λ _ _. Unit) clock.now _ s
        (laws.now s)
        (λ t u m.
          timely-Finishes (exchange_until io clock (suc k) deadline) deadline k
            (until-Finishes k deadline) state t u (omega arith))

  -- With one round of fuel for each millisecond of the timeout, and one more, `exchange` never
  -- runs out of fuel: it completes, returns an error, or stops where `poll` or `send` panicked.
  pub exchange-Finishes :
      (k timeout : ℕ) (s : S)
      → timeout ≤ k * millisecond
      → Finishes (λ _ _. Unit) (exchange io clock (suc k) timeout s)
  unfolding exchange
  exchange-Finishes k timeout s h =
      Finishes-bind (λ t u. (t ≡ time u) × (time s ≤ time u)) (λ _ _. Unit) clock.now
        (λ start. exchange_until io clock (suc k) (start + timeout) default) s (laws.now s)
        (λ start u m. until-Finishes k (start + timeout) default u (omega arith))
