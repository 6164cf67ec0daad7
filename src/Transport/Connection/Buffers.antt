-- ===== src/Transport/Connection/Buffers.antt =====
-- src/transport.rs: the `unwrap` calls of `Connection`, and the buffers that they need.
use rdma_prototype.Base.{◌≢◌, ℕ, zero, suc, leb, if◌then◌else◌, ◌+◌, List, none, arith}
use rdma_prototype.Outcome.{Outcome, ok, err, panic, unfinished, message}
use rdma_prototype.Machine.{
  Machine, At, Exec, me, in_env, zoom, do_now, do_sleep, raise, pure, ◌>>=◌, ◌>>◌,
}
use rdma_prototype.Machine.Safety.{Safe, Preserves, Preserves-zoom, Preserves-bind, Preserves-if}
use rdma_prototype.Ffi.{Ptr, access_send, access_recv}
use rdma_prototype.Transport.Handle.Safety.{open_into-Preserves}
use rdma_prototype.Transport.Slot.{Slot}
use rdma_prototype.Transport.Listener.{millisecond}
use rdma_prototype.Transport.Info.{Info}
use rdma_prototype.Transport.Connection.{Connection, post_recv, send, poll, tx_id, rx_id}
use rdma_prototype.Transport.Connection.Setup.{open_resources, register, post_until, initialize}
use rdma_prototype.Transport.Connection.Polling.{Polls, poll-Polls}

-- Both slots have their buffer.
abbrev pub Holds : Connection → Type 0
Holds c = (c.tx.bytes ≢ none) × (c.rx.bytes ≢ none)

module _ {M : Machine} where
  abbrev pub HoldsAt : At M Connection → Type 0
  HoldsAt s = Holds s.self

module _ (M : Machine) where
  pub post_recv-Preserves : Preserves (HoldsAt {M = M}) (post_recv M)
  unfolding post_recv
  post_recv-Preserves s h = ground arith

  pub send-Preserves : (text : List ℕ) → Preserves (HoldsAt {M = M}) (send M text)
  unfolding send
  send-Preserves text s h = ground arith

  polled_keeps :
      (s : At M Connection) (r : Outcome (List _)) (t : At M Connection)
      → Polls M s (r, t)
      → HoldsAt s
      → Safe (λ _ t. HoldsAt t) HoldsAt (r, t)
  polled_keeps s (ok events) t p h = ground arith
  polled_keeps s (err e) t p h = ground arith
  polled_keeps s panic t p h = ground arith
  polled_keeps s unfinished t p h = ground arith

  pub poll-Preserves : Preserves (HoldsAt {M = M}) (poll M)
  poll-Preserves s h = polled_keeps s (poll M s).0 (poll M s).1 (poll-Polls M s) h

  -- The slot has its buffer.
  abbrev HasBytes : At M Slot → Type 0
  HasBytes s = s.self.bytes ≢ none

  register-Preserves :
      (domain : Ptr) (access id : ℕ) → Preserves HasBytes (register M domain access id)
  unfolding register
  register-Preserves domain access id s h = ground arith

  open_resources-Preserves : (info : Info) → Preserves HoldsAt (open_resources M info)
  unfolding open_resources
  open_resources-Preserves info =
      Preserves-bind HoldsAt (me M) _ (λ s h. h)
        (λ c.
          Preserves-bind HoldsAt _ _
            (open_into-Preserves M Holds (λ p c. record c { domain = p }) _ _ (λ p t h. h))
            (λ _.
              Preserves-bind HoldsAt _ _
                (open_into-Preserves M Holds (λ p c. record c { eq = p }) _ _ (λ p t h. h))
                (λ _.
                  Preserves-bind HoldsAt (me M) _ (λ s h. h)
                    (λ c.
                      Preserves-bind HoldsAt _ _
                        (open_into-Preserves M Holds (λ p c. record c { tx_cq = p }) _ _
                          (λ p t h. h))
                        (λ _.
                          Preserves-bind HoldsAt _ _
                            (open_into-Preserves M Holds (λ p c. record c { rx_cq = p }) _ _
                              (λ p t h. h))
                            (λ _.
                              Preserves-bind HoldsAt (me M) _ (λ s h. h)
                                (λ c.
                                  Preserves-bind HoldsAt _ _
                                    (open_into-Preserves M Holds (λ p c. record c { ep = p }) _ _
                                      (λ p t h. h))
                                    (λ _.
                                      Preserves-bind HoldsAt
                                        (zoom M (λ c. c.tx) (λ s c. record c { tx = s })
                                          (register M c.domain access_send tx_id))
                                        _
                                        (Preserves-zoom M Holds (λ s. s.bytes ≢ none) (λ c. c.tx)
                                          (λ s c. record c { tx = s }) _ (λ c h. h.0)
                                          (λ s c j h. (j, h.1))
                                          (register-Preserves c.domain access_send tx_id))
                                        (λ _.
                                          Preserves-zoom M Holds (λ s. s.bytes ≢ none) (λ c. c.rx)
                                            (λ s c. record c { rx = s }) _ (λ c h. h.1)
                                            (λ s c j h. (h.0, j))
                                            (register-Preserves c.domain access_recv rx_id))))))))))

  post_until-Preserves : (fuel deadline : ℕ) → Preserves HoldsAt (post_until M fuel deadline)
  unfolding post_until
  post_until-Preserves zero deadline = λ s h. h
  post_until-Preserves (suc fuel) deadline =
      let again : Exec (At M Connection) Unit =
        poll M >> (in_env M (do_sleep M millisecond) >> post_until M fuel deadline) in
      let timed_out : Exec (At M Connection) Unit =
        raise (err (message "receive submission timeout")) in
      let retry : ℕ → Exec (At M Connection) Unit =
        λ t. if leb deadline t then timed_out else again in
      Preserves-bind HoldsAt (post_recv M)
        (λ posted. if posted then pure tt else (in_env M (do_now M) >>= retry)) post_recv-Preserves
        (λ posted.
          Preserves-if HoldsAt posted (pure tt) (in_env M (do_now M) >>= retry) (λ s h. h)
            (Preserves-bind HoldsAt (in_env M (do_now M)) retry (λ s h. h)
              (λ t.
                Preserves-if HoldsAt (leb deadline t) timed_out again (λ s h. h)
                  (Preserves-bind HoldsAt (poll M) _ poll-Preserves (λ _.
                    Preserves-bind HoldsAt (in_env M (do_sleep M millisecond)) _ (λ s h. h)
                      (λ _. post_until-Preserves fuel deadline))))))

  pub initialize-Preserves :
      (fuel : ℕ) (info : Info) (timeout : ℕ) → Preserves HoldsAt (initialize M fuel info timeout)
  unfolding initialize
  initialize-Preserves fuel info timeout =
      Preserves-bind HoldsAt _ _ (open_resources-Preserves info) (λ _.
        Preserves-bind HoldsAt (in_env M (do_now M)) _ (λ s h. h)
          (λ start. post_until-Preserves fuel (start + timeout)))
