-- ===== src/Shim/Sync/Observing.antt =====
-- `poll` of src/transport.rs on naive/fabric_shim.c.
use rdma_prototype.Base.{
  Option, ℕ, ℤ, pos, negsuc, Bool, true, false, not, ◌||◌, ◌≡◌, ◌≢◌, ◌∙◌, refl, ap, ◌⊎◌, inl, inr,
  some, none, is_zero, is_negative, Bool-cases, List, ◌++◌, ◌==◌, ltb, arith,
}
use rdma_prototype.Outcome.{
  Outcome, ok, err, panic, unfinished, Error, message, failed, eq_error, cq_error, connection_event,
}
use rdma_prototype.State.{Event}
use rdma_prototype.Ffi as Ffi
use rdma_prototype.Ffi.{
  Ptr, Completion, ConnectEvent, completion_send, completion_recv, event_connected, event_shutdown,
}
use rdma_prototype.Machine.{Machine, At, Env, Exec, pure, ◌>>=◌, in_env, check}
use rdma_prototype.Machine.Behaviour.{Behaves, Behaves-bind, Behaves-if, Behaves-else}
use rdma_prototype.Libfabric.{Libfabric}
use rdma_prototype.Transport.Poll.{poll_cq, poll_eq}
use rdma_prototype.Transport.Connection.{
  Connection, ensure_open, poll, poll_tx, poll_rx, poll_connection, tx_done, rx_done, eq_event,
  both, tx_id, rx_id,
}
use rdma_prototype.Transport.Connection.Buffers.{Holds}
use rdma_prototype.Transport.Connection.Polling.{Polls, poll-Polls}
use rdma_prototype.Shim.Objects.{Store}
use rdma_prototype.Shim.Polling.{cq_poll}
use rdma_prototype.Shim.Listening.{eq_poll}
use rdma_prototype.Shim.Completing.{Quiet}
use rdma_prototype.Shim.Backing.{Backed, Serves, memory}
use rdma_prototype.Shim.Sync.Aside.{LeavesAside, eq_poll-LeavesAside}
use rdma_prototype.Shim.Sync.Synchrony.{
  InStep, Reported, tx_flag, rx_flag, tx_unflag-InStep, rx_unflag-InStep, InStep-aside,
}
use rdma_prototype.Shim.Sync.Reporting.{tx_poll-Reported, rx_poll-Reported}
use rdma_prototype.Shim.Sync.Working.{Negative, Works, unwrapped-Behaves}

-- The errors that `poll` may return on the shim: those of the foreign calls, and of its own messages
-- that a received message is longer than its buffer, that the connection is closed, or that an event of
-- the connection is neither that it is connected nor that it is shut down.
abbrev pub Expected : Error → Type 0
Expected (message text) =
    (text ≡ "RX length exceeds buffer capacity") ⊎ (text ≡ "connection is closing or closed")
Expected (connection_event n) = (n ≢ event_connected) × (n ≢ event_shutdown)
Expected (failed operation text code) = Unit
Expected (eq_error code provider text) = Unit
Expected (cq_error id code provider text) = Unit
Expected _ = ⊥

pub negative_nonzero : (code : ℤ) → is_negative code ≡ true → is_zero code ≡ false
negative_nonzero (pos n) h = ground arith
negative_nonzero (negsuc n) h = refl

-- The completion of a slot passes the test of its poll.
recognised :
    (pending : Bool) (done : Completion) (id direction : ℕ)
    → pending ≡ true
    → done.op_id ≡ id
    → done.flags ≡ direction
    → (not pending || not (done.op_id == id) || not (done.flags == direction)) ≡ false
recognised pending done id direction set number kind = ground arith

module _ {M : Machine} {L : Libfabric} (backed : Backed M L) (negative : Negative L) where
  abbrev pub Observes :
      {A : Type 0} → (A → At M Connection → Type 0) → Outcome A × At M Connection → Type 0
  Observes P r = Behaves Expected (Works backed) P r

  -- The poll of a slot's queue, and what follows it.
  module _ {A : Type 0} (P : A → At M Connection → Type 0)
      (f : Option Completion → Exec (At M Connection) A) (s : At M Connection)
      (holds : Holds s.self) (id direction : ℕ) (pending : Bool) (d : Connection)
      (back : (t : Store L) → InStep d t → InStep s.self t)
      (nothing : (e : Env M)
        → InStep s.self (backed.store e.world)
        → Observes P (f none (record { self = s.self; env = e })))
      (something : (done : Completion) (e : Env M)
        → pending ≡ true
        → done.op_id ≡ id
        → done.flags ≡ direction
        → InStep d (backed.store e.world)
        → Observes P (f (some done) (record { self = s.self; env = e }))) where
    Quiet-cases : (code : ℤ) → Quiet L code → (is_zero code ≡ true) ⊎ (is_negative code ≡ true)
    Quiet-cases code (inl (e, same)) = inr (rw same (negative e))
    Quiet-cases code (inr h) = h

    poll_cq-Observes :
        (q : Ptr)
        → Reported id direction pending s.self d (cq_poll L q (memory backed s))
        → Observes P ((in_env M (poll_cq M q) >>= f) s)
    unfolding poll_cq check
    poll_cq-Observes q reported =
        let shim = cq_poll L q (memory backed s) in
        go shim.0 shim.1 (backed.cq_poll q s.env.world) reported
      where
        go :
            (r : Outcome (ℤ × Completion)) (t : Store L)
            → Serves backed.store
                (let (code, done, u) = M.cq_poll q s.env.world in ((code, done), u))
                (r, t)
            → Reported id direction pending s.self d (r, t)
            → Observes P ((in_env M (poll_cq M q) >>= f) s)
        go (ok (code, out)) t serves (inl (same, quiet)) =
            let this : (M.cq_poll q s.env.world).0 ≡ code = ap (λ x. x.0) serves.0 in
            let step : InStep s.self (backed.store (M.cq_poll q s.env.world).2) =
              rw serves.1 same in
            elim (Quiet-cases code quiet) [
              | inl zero ↦ rw (this, zero) (nothing _ step)
              | inr bad ↦ rw (this, negative_nonzero code bad, bad) (tt, (step, holds))
            ]
        go (ok (code, out)) t serves (inr (one, set, number, kind, later)) =
            let this : (M.cq_poll q s.env.world).0 ≡ pos 1 = ap (λ x. x.0) serves.0 ∙ one in
            let that : (M.cq_poll q s.env.world).1 ≡ out = ap (λ x. x.1) serves.0 in
            let step : InStep d (backed.store (M.cq_poll q s.env.world).2) = rw serves.1 later in
            elim (Bool-cases (is_zero out.err)) [
              | inl fine ↦ rw (this, that, fine) (something out _ set number kind step)
              | inr bad ↦ rw (this, that, bad) (tt, (back _ step, holds))
            ]
        go (err e) t serves reported = absurd reported
        go panic t serves reported = absurd reported
        go unfinished t serves reported = absurd reported

  abbrev pub Watches : {A : Type 0} → Outcome A × At M Connection → Type 0
  Watches r = Observes (λ _ u. Works backed u) r

  poll_tx-Watches : (s : At M Connection) → Works backed s → Watches (poll_tx M s)
  unfolding poll_tx tx_done
  poll_tx-Watches s (step, holds) =
      poll_cq-Observes (λ _ u. Works backed u) (tx_done M) s holds tx_id completion_send
        s.self.tx.pending (tx_flag false s.self) (tx_unflag-InStep s.self) (λ e h. (h, holds))
        (λ done e set number kind h.
          Behaves-else Expected (Works backed) (λ _ u. Works backed u) _ _ _
            (record { self = s.self; env = e })
            (recognised s.self.tx.pending done tx_id completion_send set number kind) (h, holds))
        s.self.tx_cq (tx_poll-Reported s.self (memory backed s) step)

  poll_rx-Watches : (s : At M Connection) → Works backed s → Watches (poll_rx M s)
  unfolding poll_rx rx_done
  poll_rx-Watches s (step, holds) =
      poll_cq-Observes (λ _ u. Works backed u) (rx_done M) s holds rx_id completion_recv
        s.self.rx.pending (rx_flag false s.self) (rx_unflag-InStep s.self) (λ e h. (h, holds))
        (λ done e set number kind h.
          Behaves-else Expected (Works backed) (λ _ u. Works backed u) _ _ _
            (record { self = s.self; env = e })
            (recognised s.self.rx.pending done rx_id completion_recv set number kind)
            (unwrapped-Behaves Expected (Works backed) (λ _ u. Works backed u) s.self.rx.bytes _
              (record { self = rx_flag false s.self; env = e }) holds.1
              (λ b.
                Behaves-if Expected (Works backed) (λ _ u. Works backed u) (ltb b.len done.len) _ _
                  (record { self = rx_flag false s.self; env = e }) (λ _. (inl refl, (h, holds)))
                  (λ _. (h, holds)))))
        s.self.rx_cq (rx_poll-Reported s.self (memory backed s) step)

  poll_connection-Watches : (s : At M Connection) → Works backed s → Watches (poll_connection M s)
  unfolding poll_connection poll_eq eq_event check
  poll_connection-Watches s (step, holds) =
      let shim = eq_poll L s.self.eq (memory backed s) in
      go shim.0 shim.1 (backed.eq_poll s.self.eq s.env.world)
        (eq_poll-LeavesAside s.self.eq step.wired.eq.0 (memory backed s) step.wired.eq.2)
    where
      go :
          (r : Outcome (ℤ × ConnectEvent)) (t : Store L)
          → Serves backed.store
              (let (code, event, u) = M.eq_poll s.self.eq s.env.world in ((code, event), u))
              (r, t)
          → LeavesAside (memory backed s) (r, t)
          → Watches (poll_connection M s)
      go (ok answer) t serves aside =
          let code = (M.eq_poll s.self.eq s.env.world).0 in
          let event = (M.eq_poll s.self.eq s.env.world).1 in
          let later : InStep s.self (backed.store (M.eq_poll s.self.eq s.env.world).2) =
            rw serves.1 (InStep-aside s.self (memory backed s) answer t step aside) in
          elim (Bool-cases (is_zero code)) [
            | inl zero ↦ rw zero (later, holds)
            | inr some_code ↦ rw some_code (elim (Bool-cases (is_negative code)) [
              | inl bad ↦ rw bad (tt, (later, holds))
              | inr good ↦ rw good (elim (Bool-cases (is_zero event.err)) [
                | inr failure ↦ rw failure (tt, (later, holds))
                | inl fine ↦ rw fine (elim (Bool-cases (event.event_type == event_connected)) [
                  | inl up ↦ rw up (later, holds)
                  | inr other ↦ rw other (elim (Bool-cases (event.event_type == event_shutdown)) [
                    | inl down ↦ rw down (later, holds)
                    | inr odd ↦ rw odd ((λ e. ground arith, λ e. ground arith), (later, holds))
                  ])
                ])
              ])
            ])
          ]
      go (err e) t serves aside = absurd aside
      go panic t serves aside = absurd aside
      go unfinished t serves aside = absurd aside

  both-Watches :
      (m n : Exec (At M Connection) (List Event)) (s : At M Connection)
      → Watches (m s)
      → ((u : At M Connection) → Works backed u → Watches (n u))
      → Watches (both m n s)
  both-Watches m n s hm hn =
      Behaves-bind Expected (Works backed) (λ _ u. Works backed u) (λ _ u. Works backed u) m _ s hm
        (λ first u h.
          Behaves-bind Expected (Works backed) (λ _ u. Works backed u) (λ _ u. Works backed u) n
            (λ second. pure (first ++ second)) u (hn u h) (λ second v k. k))

  -- `poll` on the shim.
  pub poll-Watches : (s : At M Connection) → Works backed s → Watches (poll M s)
  unfolding poll ensure_open
  poll-Watches s works = elim (Bool-cases (Ffi.is_null s.self.ep || s.self.closing)) [
    | inl closed ↦ rw closed (inr refl, works)
    | inr live ↦ rw live (
        both-Watches (poll_tx M) (both (poll_rx M) (poll_connection M)) s (poll_tx-Watches s works)
          (λ u h.
            both-Watches (poll_rx M) (poll_connection M) u (poll_rx-Watches u h)
              poll_connection-Watches))
  ]

  -- How a poll ends.
  abbrev pub Observed : Outcome (List Event) × At M Connection → Type 0
  Observed (ok events, t) = Works backed t
  Observed (err e, t) = Expected e × Works backed t
  Observed (panic, t) = ⊥
  Observed (unfinished, t) = ⊥

  observed :
      (s : At M Connection) (r : Outcome (List Event)) (t : At M Connection)
      → Watches (r, t)
      → Polls M s (r, t)
      → Observed (r, t)
  observed s (ok events) t h k = h
  observed s (err e) t h k = h
  observed s panic t h k = h
  observed s unfinished t h k = k

  -- `poll` of a connection that is in step with the shim, on a machine whose foreign calls are the
  -- shim's, where libfabric's error codes are negative, whatever else libfabric answers: it comes to an
  -- end, by its events or an error, and the connection stays in step. The error is never that a
  -- completion was unexpected: it is that a poll of the shim failed, that the received message is longer
  -- than the buffer, that the connection is closed, or that an event of the connection is neither that
  -- it is connected nor that it is shut down.
  pub poll-Observed : (s : At M Connection) → Works backed s → Observed (poll M s)
  poll-Observed s works =
      observed s (poll M s).0 (poll M s).1 (poll-Watches s works) (poll-Polls M s)
