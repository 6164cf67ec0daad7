-- ===== src/Client/Safety.antt =====
-- src/bin/clients.rs: the client against a panic.
use rdma_prototype.Base.{ℕ, zero, suc, ◌+◌, List, Option, some, none, if◌then◌else◌, ltb}
use rdma_prototype.State.Client.{Exchange, Message, bytes, default}
use rdma_prototype.Outcome.{Outcome, ok, err, panic, unfinished, client_timeout, Returns}
use rdma_prototype.Machine.{Machine, Env, Exec, raise, pure, ◌>>=◌}
use rdma_prototype.Machine.Safety.{
  Safe, Preserves, Preserves-bind, Preserves-if, NoPanic, Safe-bind,
}
use rdma_prototype.Transport.Info
use rdma_prototype.Transport.Info.{Info}
use rdma_prototype.Transport.Fabric.{Fabric}
use rdma_prototype.Transport.Connection.Close
use rdma_prototype.Transport.Connection.Setup
use rdma_prototype.Transport.Connection.Buffers.{Holds, HoldsAt, poll-Preserves, send-Preserves}
use rdma_prototype.Transport.Safety.{close-NoPanic, connect-Safe, query-NoPanic}
use rdma_prototype.Transport.Scopes.{NoPanic-worked, NoPanic-in_info}
use rdma_prototype.Client.Exchange.{next_message, complete}
use rdma_prototype.Client.Accepting.{on_events-Returns}
use rdma_prototype.Client.Loop.{
  ClientIo, Clock, on_events, follow, send_due, submit, advance, round, exchange_until, exchange,
}
use rdma_prototype.Client.Run.{connection_io, connection_clock, session, run}

-- Over a transport and a clock that keep a property of their state, and do not panic.
module _ {S : Type 0} (I : S → Type 0) (io : ClientIo S) (clock : Clock S)
    (poll_keeps : Preserves I io.poll) (send_keeps : (text : List ℕ) → Preserves I (io.send text))
    (now_keeps : Preserves I clock.now) (sleep_keeps : Preserves I clock.sleep) where
  raise-Preserves : {A : Type 0} (r : Outcome A) → Returns r → Preserves I (raise r)
  raise-Preserves (ok a) h s k = k
  raise-Preserves (err e) h s k = k
  raise-Preserves panic h s k = absurd h
  raise-Preserves unfinished h s k = absurd h

  send_due-Preserves : (s : Exchange) (due : Option Message) → Preserves I (send_due io clock s due)
  unfolding send_due
  send_due-Preserves s none = λ t h. h
  send_due-Preserves s (some message) =
      Preserves-bind I (io.send (bytes message)) _ (send_keeps (bytes message)) (λ accepted t h. h)

  submit-Preserves : (s : Exchange) → Preserves I (submit io clock s)
  unfolding submit
  submit-Preserves s = send_due-Preserves s (next_message s)

  advance-Preserves : (s : Exchange) → Preserves I (advance io clock s)
  unfolding advance
  advance-Preserves s =
      Preserves-if I (complete s) (pure none) _ (λ t h. h)
        (Preserves-bind I (submit io clock s) _ (submit-Preserves s)
          (λ after. Preserves-bind I clock.sleep _ sleep_keeps (λ _ t h. h)))

  round-Preserves : (s : Exchange) → Preserves I (round io clock s)
  unfolding round
  round-Preserves s = Preserves-bind I io.poll _ poll_keeps (λ events.
      Preserves-bind I (raise (on_events s events)) (advance io clock)
        (raise-Preserves _ (on_events-Returns s events)) advance-Preserves)

  follow-Preserves :
      (again : Exchange → Exec S Unit)
      → ((s : Exchange) → Preserves I (again s))
      → (next : Option Exchange) → Preserves I (follow again next)
  follow-Preserves again h none = λ s k. k
  follow-Preserves again h (some after) = h after

  exchange_until-Preserves :
      (fuel deadline : ℕ) (s : Exchange) → Preserves I (exchange_until io clock fuel deadline s)
  unfolding exchange_until
  exchange_until-Preserves zero deadline s = λ t h. h
  exchange_until-Preserves (suc fuel) deadline s =
      let more : Exec S Unit =
        round io clock s >>= follow (exchange_until io clock fuel deadline) in
      let late : Exec S Unit = raise (err (client_timeout s)) in
      Preserves-bind I clock.now (λ t. if ltb t deadline then more else late) now_keeps
        (λ t.
          Preserves-if I (ltb t deadline) more late
            (Preserves-bind I (round io clock s) (follow (exchange_until io clock fuel deadline))
              (round-Preserves s)
              (follow-Preserves (exchange_until io clock fuel deadline)
                (exchange_until-Preserves fuel deadline)))
            (λ s h. h))

  exchange-Preserves : (fuel timeout : ℕ) → Preserves I (exchange io clock fuel timeout)
  unfolding exchange
  exchange-Preserves fuel timeout =
      Preserves-bind I clock.now _ now_keeps
        (λ start. exchange_until-Preserves fuel (start + timeout) default)

module _ (M : Machine) where
  session-NoPanic :
      (fuel : ℕ) (info : Info) (timeout : ℕ) (fabric : Fabric)
      → NoPanic (session M fuel info timeout fabric)
  unfolding session
  session-NoPanic fuel info timeout fabric e _ =
      Safe-bind (λ c _. Holds c) (λ _ _. Unit) (λ _. Unit)
        (Setup.connect M fuel fabric info timeout) _ e (connect-Safe M fuel fabric info timeout e)
        (λ conn u h.
          NoPanic-worked M Holds conn (Close.drop M)
            (exchange (connection_io M) (connection_clock M) fuel timeout) (Close.close M) h
            (exchange-Preserves HoldsAt (connection_io M) (connection_clock M) (poll-Preserves M)
              (send-Preserves M) (λ s k. k) (λ s k. k) fuel timeout)
            (close-NoPanic M) u tt)

  run-NoPanic :
      (fuel : ℕ) (ip port : List ℕ) (domain : Option (List ℕ)) (timeout : ℕ)
      → NoPanic (run M fuel ip port domain timeout)
  unfolding run Info.remote
  run-NoPanic fuel ip port domain timeout =
      Preserves-bind (λ _. Unit) (Info.remote M ip port domain) _ (query-NoPanic M ip port domain _)
        (λ info.
          NoPanic-in_info M info (session M fuel info timeout) (session-NoPanic fuel info timeout))

  -- The client's `run` does not panic by an `unwrap` or a slice, whatever its arguments are and
  -- whatever the foreign functions answer, however many rounds its loop makes.
  pub client_run-Safe :
      (fuel : ℕ) (ip port : List ℕ) (domain : Option (List ℕ)) (timeout : ℕ) (e : Env M)
      → Safe (λ _ _. Unit) (λ _. Unit) (run M fuel ip port domain timeout e)
  client_run-Safe fuel ip port domain timeout e = run-NoPanic fuel ip port domain timeout e tt
