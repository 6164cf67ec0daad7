-- ===== src/Transport/Safety.antt =====
-- src/transport.rs: the methods of the transport against a panic.
use rdma_prototype.Base.{
  ℕ, zero, suc, ◌+◌, List, Bool, Option, some, none, arith, if◌then◌else◌, ltb, inl, inr, ◌⊎◌, ◌≡◌,
}
use rdma_prototype.Outcome.{Outcome, ok, err, panic, unfinished, message, Result, value, error}
use rdma_prototype.Machine.{
  Machine, At, Env, Exec, construct, do_now, do_sleep, attempt, resume, in_env, me, pure, raise,
  ◌>>=◌, ◌>>◌,
}
use rdma_prototype.Machine.Safety.{
  Safe, Preserves, Preserves-bind, Preserves-if, Preserves-attempt, Safe-if, Preserves-zoom,
  Safe-bind, NoPanic, construct-Safe, Safe-weaken,
}
use rdma_prototype.Transport.Handle.Plan.{Fails, Ran-ends}
use rdma_prototype.Transport.Info
use rdma_prototype.Transport.Info.{Info}
use rdma_prototype.Transport.Fabric
use rdma_prototype.Transport.Fabric.{Fabric}
use rdma_prototype.Transport.Request
use rdma_prototype.Transport.Request.{Listener, Request}
use rdma_prototype.Transport.Listener
use rdma_prototype.Transport.Listener.{millisecond}
use rdma_prototype.Transport.Connection.{Connection}
use rdma_prototype.Transport.Connection.Close
use rdma_prototype.Transport.Connection.Setup
use rdma_prototype.Transport.Slot
use rdma_prototype.Transport.Connection.Buffers.{Holds, HoldsAt, initialize-Preserves}
use rdma_prototype.Transport.Connection.Teardown.{plan, after_shutdown, close-Ran}

module _ (M : Machine) where
  pub Fabric_close-NoPanic : NoPanic (Fabric.close M)
  unfolding Fabric.close
  Fabric_close-NoPanic s h = ground arith

  pub Listener_close-NoPanic : NoPanic (Listener.close M)
  unfolding Listener.close
  Listener_close-NoPanic s h = ground arith

  reject-NoPanic : NoPanic (Request.reject M)
  unfolding Request.reject
  reject-NoPanic s h = ground arith

  Listener_poll-NoPanic : (l : Listener) → NoPanic (Listener.poll M l)
  unfolding Listener.poll
  Listener_poll-NoPanic l s h = ground arith

  ended :
      (r : Outcome Unit) (t : At M Connection)
      → (r ≡ ok tt) ⊎ Fails r
      → Safe (λ _ _. Unit) (λ _. Unit) (r, t)
  ended (ok u) t h = tt
  ended (err e) t h = tt
  ended panic t h = elim h [ inl bad ↦ cc | inr bad ↦ absurd bad ]
  ended unfinished t h = tt

  pub close-NoPanic : NoPanic (Close.close M)
  close-NoPanic s h = ended (Close.close M s).0 (Close.close M s).1 (
      Ran-ends (plan s.self) (after_shutdown M s) (Close.close M s).1.env.trace (Close.close M s).0
        _ (close-Ran M s))

  pub query-NoPanic :
      (ip port : List ℕ) (domain : Option (List ℕ)) (is_source : Bool)
      → NoPanic (Info.query M ip port domain is_source)
  unfolding Info.query construct
  query-NoPanic ip port domain is_source s h = ground arith

  pub open_fabric-NoPanic : (info : Info) → NoPanic (Fabric.open_fabric M info)
  unfolding Fabric.open_fabric construct
  open_fabric-NoPanic info s h = ground arith

  pub bind-NoPanic : (fabric : Fabric) (info : Info) → NoPanic (Listener.bind M fabric info)
  unfolding Listener.bind construct
  bind-NoPanic fabric info s h = ground arith

  found-NoPanic :
      (again : Exec (Env M) Request) (polled : Option Request)
      → NoPanic again
      → NoPanic (elim polled as (λ _. Exec (Env M) Request) [
        | some request ↦ pure request
        | none ↦ again
      ])
  found-NoPanic again none h = h
  found-NoPanic again (some request) h = λ s k. tt

  wait_until-NoPanic :
      (fuel deadline : ℕ) (l : Listener) → NoPanic (Listener.wait_until M fuel deadline l)
  unfolding Listener.wait_until
  wait_until-NoPanic zero deadline l = λ s h. tt
  wait_until-NoPanic (suc fuel) deadline l =
      let again : Exec (Env M) Request =
        do_sleep M millisecond >> Listener.wait_until M fuel deadline l in
      let look : Exec (Env M) Request = Listener.poll M l >>= λ polled. elim polled [
        | some request ↦ pure request
        | none ↦ again
      ] in
      let late : Exec (Env M) Request =
        raise (err (message "timeout waiting for a connection request")) in
      Preserves-bind (λ _. Unit) (do_now M) (λ t. if ltb t deadline then look else late) (λ s h. tt)
        (λ t.
          Preserves-if (λ _. Unit) (ltb t deadline) look late
            (Preserves-bind (λ _. Unit) (Listener.poll M l) _ (Listener_poll-NoPanic l)
              (λ polled. found-NoPanic again polled (
                Preserves-bind (λ _. Unit) (do_sleep M millisecond) _ (λ s h. tt)
                  (λ _. wait_until-NoPanic fuel deadline l))))
            (λ s h. tt))

  pub wait_request-NoPanic :
      (fuel : ℕ) (l : Listener) (timeout : ℕ) → NoPanic (Listener.wait_request M fuel l timeout)
  unfolding Listener.wait_request
  wait_request-NoPanic fuel l timeout =
      Preserves-bind (λ _. Unit) (do_now M) _ (λ s h. tt)
        (λ start. wait_until-NoPanic fuel (start + timeout) l)

  empty-Safe :
      (fabric : Fabric) (e : Env M) → Safe (λ c _. Holds c) (λ _. Unit) (Setup.empty M fabric e)
  unfolding Setup.empty Slot.empty
  empty-Safe fabric e = ground arith

  start_connect-Safe :
      (fuel : ℕ) (info : Info) (timeout : ℕ)
      → Preserves HoldsAt (Setup.start_connect M fuel info timeout)
  unfolding Setup.start_connect
  start_connect-Safe fuel info timeout =
      Preserves-bind HoldsAt _ _ (initialize-Preserves M fuel info timeout) (λ _ s h. ground arith)

  pub connect-Safe :
      (fuel : ℕ) (fabric : Fabric) (info : Info) (timeout : ℕ) (e : Env M)
      → Safe (λ c _. Holds c) (λ _. Unit) (Setup.connect M fuel fabric info timeout e)
  unfolding Setup.connect
  connect-Safe fuel fabric info timeout e =
      Safe-bind (λ c _. Holds c) (λ c _. Holds c) (λ _. Unit) (Setup.empty M fabric) _ e
        (empty-Safe fabric e)
        (λ c u h.
          construct-Safe M Holds (Close.drop M) (Setup.start_connect M fuel info timeout) c u (
            let begin : At M Connection = record { self = c; env = u } in
            Safe-weaken (λ _ t. HoldsAt t) (λ _ t. HoldsAt t) HoldsAt (λ _. Unit)
              (Setup.start_connect M fuel info timeout begin).0 _
              (start_connect-Safe fuel info timeout begin h) (λ _ t k. k) (λ t k. tt)))

  accept_request-Preserves :
      (fuel timeout : ℕ)
      → Preserves
          (λ (s : At M Setup.Setup). Holds s.self.conn)
          (Setup.accept_request M fuel timeout)
  unfolding Setup.accept_request
  accept_request-Preserves fuel timeout =
      Preserves-bind _ (me M) _ (λ s h. h)
        (λ s.
          Preserves-bind _ _ _
            (Preserves-zoom M (λ (s : Setup.Setup). Holds s.conn) Holds (λ s. s.conn)
              (λ c s. record s { conn = c }) _ (λ t h. h) (λ p t h k. h)
              (initialize-Preserves M fuel s.request.info timeout))
            (λ _ s h. ground arith))

  leave-Safe :
      (r : Outcome Unit) (t : At M Setup.Setup)
      → Safe
          (λ _ (t : At M Setup.Setup). Holds t.self.conn)
          (λ (t : At M Setup.Setup). Holds t.self.conn)
          (r, t)
      → Safe (λ c _. Holds c) (λ _. Unit) (Setup.leave M r t)
  unfolding Setup.leave
  leave-Safe (ok u) t h = h
  leave-Safe (err e) t h = tt
  leave-Safe panic t h = absurd h
  leave-Safe unfinished t h = tt

  refuse-Preserves :
      (result : Result Unit)
      → Preserves (λ (t : At M Setup.Setup). Holds t.self.conn) (Setup.refuse M result)
  unfolding Setup.refuse Request.reject
  refuse-Preserves (value u) s h = h
  refuse-Preserves (error e) s h = ground arith

  set_up-Safe :
      (fuel timeout : ℕ) (conn : Connection) (s : At M Request)
      → Holds conn
      → Safe (λ c _. Holds c) (λ _. Unit) (Setup.set_up M fuel timeout conn s)
  unfolding Setup.set_up
  set_up-Safe fuel timeout conn s h =
      let locals : Setup.Setup = record { request = s.self; conn = conn } in
      let start : At M Setup.Setup = record { self = locals; env = s.env } in
      let both : Exec (At M Setup.Setup) Unit =
        attempt (Setup.accept_request M fuel timeout) >>= Setup.refuse M in
      leave-Safe (both start).0 (both start).1 (
        Preserves-bind (λ (t : At M Setup.Setup). Holds t.self.conn)
          (attempt (Setup.accept_request M fuel timeout)) (Setup.refuse M)
          (Preserves-attempt (λ (t : At M Setup.Setup). Holds t.self.conn)
            (Setup.accept_request M fuel timeout) (accept_request-Preserves fuel timeout))
          refuse-Preserves start h)

  empty_in_env :
      (r : Outcome Connection) (e : Env M) (request : Request) (fuel timeout : ℕ)
      → Safe (λ c _. Holds c) (λ _. Unit) (r, e)
      → Safe
          (λ c _. Holds c)
          (λ _. Unit)
          (resume r (λ c. Setup.set_up M fuel timeout c) (record { self = request; env = e }))
  empty_in_env (ok c) e request fuel timeout h =
      set_up-Safe fuel timeout c (record { self = request; env = e }) h
  empty_in_env (err x) e request fuel timeout h = tt
  empty_in_env panic e request fuel timeout h = absurd h
  empty_in_env unfinished e request fuel timeout h = tt

  pub from_request-Safe :
      (fuel timeout : ℕ) (s : At M Request)
      → Safe (λ c _. Holds c) (λ _. Unit) (Setup.from_request M fuel timeout s)
  unfolding Setup.from_request
  from_request-Safe fuel timeout s =
      let setting_up : Exec (At M Request) Connection =
        in_env M (Setup.empty M s.self.listener.fabric) >>= Setup.set_up M fuel timeout in
      Safe-if (λ c _. Holds c) (λ _. Unit) s.self.handled
        (raise (err (message "connection request is already handled"))) setting_up s (λ _. tt)
        (λ _.
          let (r, e) = Setup.empty M s.self.listener.fabric s.env in
          empty_in_env r e s.self fuel timeout (empty-Safe s.self.listener.fabric s.env))
