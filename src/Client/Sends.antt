-- ===== src/Client/Sends.antt =====
-- What the client's loop submits, over any implementation of `ClientIo`.
use rdma_prototype.Base.{
  ℕ, zero, suc, ◌+◌, ◌≡◌, refl, Bool-cases, inl, inr, Bool, true, false, List, [], ◌∷◌, Option,
  none, some, arith, ltb, if◌then◌else◌,
}
use rdma_prototype.State.{Event}
use rdma_prototype.State.Client.{Exchange, Message, hello, ack, bytes, default}
use rdma_prototype.Outcome.{Outcome, ok, err, panic, unfinished, client_timeout}
use rdma_prototype.Machine.{Exec, pure, raise, resume, ◌>>=◌, ◌>>◌}
use rdma_prototype.Client.Exchange.{next_message, posted, complete}
use rdma_prototype.Client.Loop.{
  ClientIo, Clock, on_events, send_due, submit, advance, round, follow, exchange_until, exchange,
}
use rdma_prototype.Client.Log.{
  note, logged_io, logged_clock, IsPrefix, Ended, Agrees, Agrees-IsPrefix, on_events-Agrees,
  complete-Agrees, posted-Agrees, Logged,
}

module _ {S : Type 0} (io : ClientIo S) (clock : Clock S) where
  abbrev Submitted : Outcome Exchange → Logged S → Type 0
  Submitted (ok after) t = Agrees after t.sent
  Submitted (err e) t = IsPrefix t.sent
  Submitted panic t = IsPrefix t.sent
  Submitted unfinished t = IsPrefix t.sent

  -- After the send of a message that was due.
  sent-Submitted :
      (s : Exchange) (m : Message) (t : Logged S) (r : Outcome Bool)
      → next_message s ≡ some m
      → Agrees s t.sent
      → let (r', t') =
          resume r (λ accepted. pure (if accepted then posted m s else s)) (note (bytes m) r t) in
        Submitted r' t'
  sent-Submitted s m t (ok true) h a = posted-Agrees s m t.sent h a
  sent-Submitted s m t (ok false) h a = a
  sent-Submitted s m t (err e) h a = Agrees-IsPrefix s t.sent a
  sent-Submitted s m t panic h a = Agrees-IsPrefix s t.sent a
  sent-Submitted s m t unfinished h a = Agrees-IsPrefix s t.sent a

  send_due-Submitted :
      (s : Exchange) (o : Option Message) (t : Logged S)
      → next_message s ≡ o
      → Agrees s t.sent
      → let (r', t') = send_due (logged_io io) (logged_clock clock) s o t in Submitted r' t'
  unfolding send_due
  send_due-Submitted s none t h a = a
  send_due-Submitted s (some m) t h a =
      let (r, u) = io.send (bytes m) t.inner in sent-Submitted s m (record t { inner = u }) r h a

  submit-Submitted :
      (s : Exchange) (t : Logged S)
      → Agrees s t.sent
      → let (r', t') = submit (logged_io io) (logged_clock clock) s t in Submitted r' t'
  unfolding submit
  submit-Submitted s t a = send_due-Submitted s (next_message s) t refl a

  -- After a round.
  abbrev Rounded : Outcome (Option Exchange) → Logged S → Type 0
  Rounded (ok none) t = t.sent ≡ bytes hello ∷ bytes ack ∷ []
  Rounded (ok (some after)) t = Agrees after t.sent
  Rounded (err e) t = IsPrefix t.sent
  Rounded panic t = IsPrefix t.sent
  Rounded unfinished t = IsPrefix t.sent

  slept-Rounded :
      (after : Exchange) (r : Outcome Unit) (t : Logged S)
      → Agrees after t.sent
      → let (r', t') = resume r (λ _. pure (some after)) t in Rounded r' t'
  slept-Rounded after (ok u) t a = a
  slept-Rounded after (err e) t a = Agrees-IsPrefix after t.sent a
  slept-Rounded after panic t a = Agrees-IsPrefix after t.sent a
  slept-Rounded after unfinished t a = Agrees-IsPrefix after t.sent a

  Rounded-of_Submitted :
      (r : Outcome Exchange) (t : Logged S)
      → Submitted r t
      → let (r', t') = resume r (λ after. (logged_clock clock).sleep >> pure (some after)) t in
        Rounded r' t'
  Rounded-of_Submitted (ok after) t a =
      let (r, u) = clock.sleep t.inner in slept-Rounded after r (record t { inner = u }) a
  Rounded-of_Submitted (err e) t a = a
  Rounded-of_Submitted panic t a = a
  Rounded-of_Submitted unfinished t a = a

  advance-Rounded :
      (s : Exchange) (t : Logged S)
      → Agrees s t.sent
      → let (r', t') = advance (logged_io io) (logged_clock clock) s t in Rounded r' t'
  unfolding advance
  advance-Rounded s t a = elim (Bool-cases (complete s)) [
    | inl done ↦ rw (done, Rounded) (complete-Agrees s t.sent done a)
    | inr more ↦
        let (r, u) = submit (logged_io io) (logged_clock clock) s t in
        rw (more, Rounded) (Rounded-of_Submitted r u (submit-Submitted s t a))
  ]

  accepted-Rounded :
      (s : Exchange) (es : List Event) (r : Outcome Exchange) (t : Logged S)
      → on_events s es ≡ r
      → Agrees s t.sent
      → let (r', t') = resume r (advance (logged_io io) (logged_clock clock)) t in Rounded r' t'
  accepted-Rounded s es (ok next) t h a =
      advance-Rounded next t (on_events-Agrees s next es t.sent h a)
  accepted-Rounded s es (err e) t h a = Agrees-IsPrefix s t.sent a
  accepted-Rounded s es panic t h a = Agrees-IsPrefix s t.sent a
  accepted-Rounded s es unfinished t h a = Agrees-IsPrefix s t.sent a

  polled-Rounded :
      (s : Exchange) (r : Outcome (List Event)) (t : Logged S)
      → Agrees s t.sent
      → let (r', t') =
          resume r
            (λ events. raise (on_events s events) >>= advance (logged_io io) (logged_clock clock))
            t in
        Rounded r' t'
  polled-Rounded s (ok events) t a = accepted-Rounded s events (on_events s events) t refl a
  polled-Rounded s (err e) t a = Agrees-IsPrefix s t.sent a
  polled-Rounded s panic t a = Agrees-IsPrefix s t.sent a
  polled-Rounded s unfinished t a = Agrees-IsPrefix s t.sent a

  round-Rounded :
      (s : Exchange) (t : Logged S)
      → Agrees s t.sent
      → let (r', t') = round (logged_io io) (logged_clock clock) s t in Rounded r' t'
  unfolding round
  round-Rounded s t a =
      let (r, u) = io.poll t.inner in polled-Rounded s r (record t { inner = u }) a

  abbrev until : ℕ → ℕ → Exchange → Exec (Logged S) Unit
  until = exchange_until (logged_io io) (logged_clock clock)

  module _ (again : Exchange → Exec (Logged S) Unit)
      (hyp : (s : Exchange) (t : Logged S)
        → Agrees s t.sent
        → let (r', t') = again s t in Ended r' t'.sent) where
    follow-Ended :
        (r : Outcome (Option Exchange)) (t : Logged S)
        → Rounded r t
        → let (r', t') = resume r (follow again) t in Ended r' t'.sent
    follow-Ended (ok none) t d = d
    follow-Ended (ok (some after)) t a = hyp after t a
    follow-Ended (err e) t d = d
    follow-Ended panic t d = d
    follow-Ended unfinished t d = d

    timely-Ended :
        (s : Exchange) (b : Bool) (u : Logged S)
        → Agrees s u.sent
        → let (r', t') =
            (if b
                then round (logged_io io) (logged_clock clock) s >>= follow again
                else raise (err (client_timeout s)))
              u in
          Ended r' t'.sent
    timely-Ended s true u a =
        let (r, w) = round (logged_io io) (logged_clock clock) s u in
        follow-Ended r w (round-Rounded s u a)
    timely-Ended s false u a = Agrees-IsPrefix s u.sent a

    now-Ended :
        (s : Exchange) (deadline : ℕ) (r : Outcome ℕ) (u : Logged S)
        → Agrees s u.sent
        → let (r', t') =
            resume r
              (λ x.
                if ltb x deadline
                then round (logged_io io) (logged_clock clock) s >>= follow again
                else raise (err (client_timeout s)))
              u in
          Ended r' t'.sent
    now-Ended s deadline (ok x) u a = timely-Ended s (ltb x deadline) u a
    now-Ended s deadline (err e) u a = Agrees-IsPrefix s u.sent a
    now-Ended s deadline panic u a = Agrees-IsPrefix s u.sent a
    now-Ended s deadline unfinished u a = Agrees-IsPrefix s u.sent a

  until-Ended :
      (fuel deadline : ℕ) (s : Exchange) (t : Logged S)
      → Agrees s t.sent
      → let (r', t') = until fuel deadline s t in Ended r' t'.sent
  unfolding exchange_until
  until-Ended zero deadline s t a = Agrees-IsPrefix s t.sent a
  until-Ended (suc fuel) deadline s t a =
      let (r, u) = clock.now t.inner in
      now-Ended (until fuel deadline) (until-Ended fuel deadline) s deadline r
        (record t { inner = u }) a

  default-Agrees : Agrees default []
  default-Agrees = ground arith

  start-Ended :
      (fuel timeout : ℕ) (r : Outcome ℕ) (t : Logged S)
      → t.sent ≡ []
      → let (r', t') = resume r (λ start. until fuel (start + timeout) default) t in
        Ended r' t'.sent
  start-Ended fuel timeout (ok start) t e =
      until-Ended fuel (start + timeout) default t (rw e default-Agrees)
  start-Ended fuel timeout (err x) t e = inl e
  start-Ended fuel timeout panic t e = inl e
  start-Ended fuel timeout unfinished t e = inl e

  -- However the client's `exchange` ends, for any transport, clock, timeout and number of rounds,
  -- the messages that the transport accepted are none, the hello, or the hello and then the ACK,
  -- each once; and if it ends well they are both.
  pub exchange-Ended :
      (fuel timeout : ℕ) (s : S)
      → let (r, t) =
          exchange
            (logged_io io)
            (logged_clock clock)
            fuel
            timeout
            (record { inner = s; sent = [] }) in
        Ended r t.sent
  unfolding exchange
  exchange-Ended fuel timeout s =
      let (r, u) = clock.now s in start-Ended fuel timeout r (record { inner = u; sent = [] }) refl
