-- ===== src/Transport/Rejection.antt =====
-- src/transport.rs: which calls reject a connection request, and that the others do not.
use rdma_prototype.Base.{
  ◌≡◌, refl, ◌∙◌, ℕ, zero, suc, ◌+◌, Bool, true, false, List, [], ◌∷◌, Option, arith, leb,
  if◌then◌else◌, String,
}
use rdma_prototype.Outcome.{err, message}
use rdma_prototype.Ffi.{Ptr, Open, reject, access_send, access_recv}
use rdma_prototype.Machine.{
  Machine, At, Env, Exec, Call, called, pure, raise, me, zoom, in_env, do_now, do_sleep, update,
  ◌>>=◌,
}
use rdma_prototype.Machine.Laws.{Steps, Runs, Runs-bind}
use rdma_prototype.Transport.Handle.{open_into, close_handle}
use rdma_prototype.Transport.Info.{Info}
use rdma_prototype.Transport.Listener.{millisecond}
use rdma_prototype.Transport.Slot
use rdma_prototype.Transport.Slot.{Slot}
use rdma_prototype.Transport.Connection.{Connection, post_recv, poll, tx_id, rx_id}
use rdma_prototype.Transport.Connection.Close
use rdma_prototype.Transport.Connection.Setup
use rdma_prototype.Transport.Connection.Worlds.{poll-Runs}

-- A call of `shim_reject`.
abbrev pub is_rejection : Call → ℕ
is_rejection (called (reject listener info) code) = 1
is_rejection call = 0

abbrev pub rejections : List Call → ℕ
rejections [] = 0
rejections (call ∷ trace) = is_rejection call + rejections trace

module _ (M : Machine) where
  -- No rejection is among the calls in between.
  abbrev pub Unrejected : Env M → Env M → Type 0
  Unrejected e f = rejections f.trace ≡ rejections e.trace

  pub Unrejected-Steps : Steps M Unrejected
  Unrejected-Steps = record {
    here = λ e. refl;
    then = λ p q. q ∙ p;
    eq_poll = λ q e. omega arith;
    cq_poll = λ q e. omega arith;
  }

  abbrev pub Passes : {T A : Type 0} → Exec (At M T) A → Type 0
  Passes = Runs Unrejected-Steps

  Passes-zoom :
      {T P A : Type 0} (get : T → P) (put : P → T → T) (m : Exec (At M P) A)
      → Passes m
      → Passes (zoom M get put m)
  Passes-zoom get put m h s = h (record { self = get s.self; env = s.env })

  -- The same as a type of its own, whose action can be read off.
  pub record Passing {T A : Type 0} (m : Exec (At M T) A) : Type 0 where
    pub passes : Passes m

  Passing-bind :
      {T A B : Type 0} (m : Exec (At M T) A) (f : A → Exec (At M T) B)
      → Passing m
      → ((a : A) → Passing (f a))
      → Passing (m >>= f)
  Passing-bind m f hm hf = record {
    passes = Runs-bind Unrejected-Steps m f hm.passes (λ a. (hf a).passes);
  }

  Passing-if :
      {T A : Type 0} (b : Bool) (m n : Exec (At M T) A)
      → Passing m
      → Passing n
      → Passing (if b then m else n)
  Passing-if true m n hm hn = hm
  Passing-if false m n hm hn = hn

  open_into-Passes :
      {T : Type 0} (put : Ptr → T → T) (function : Open) (name : String)
      → Passes (open_into M put function name)
  unfolding open_into
  open_into-Passes put function name s = ground arith

  register-Passes : (domain : Ptr) (access id : ℕ) → Passes (Setup.register M domain access id)
  unfolding Setup.register open_into
  register-Passes domain access id s = ground arith

  open_into-Passing :
      {T : Type 0} (put : Ptr → T → T) (function : Open) (name : String)
      → Passing (open_into M put function name)
  open_into-Passing put function name = record { passes = open_into-Passes put function name }

  me-Passing : Passing (me M {T = Connection})
  me-Passing = record { passes = λ s. refl }

  open_resources-Passing : (info : Info) → Passing (Setup.open_resources M info)
  unfolding Setup.open_resources
  open_resources-Passing info = Passing-bind (me M) _ me-Passing (λ c.
      Passing-bind _ _ (open_into-Passing (λ p c. record c { domain = p }) _ _) (λ _.
        Passing-bind _ _ (open_into-Passing (λ p c. record c { eq = p }) _ _) (λ _.
          Passing-bind (me M) _ me-Passing (λ c.
            Passing-bind _ _ (open_into-Passing (λ p c. record c { tx_cq = p }) _ _) (λ _.
              Passing-bind _ _ (open_into-Passing (λ p c. record c { rx_cq = p }) _ _) (λ _.
                Passing-bind (me M) _ me-Passing (λ c.
                  Passing-bind _ _ (open_into-Passing (λ p c. record c { ep = p }) _ _) (λ _.
                    Passing-bind
                      (zoom M (λ c. c.tx) (λ s c. record c { tx = s })
                        (Setup.register M c.domain access_send tx_id))
                      _
                      (record {
                        passes =
                            Passes-zoom (λ c. c.tx) (λ s c. record c { tx = s })
                              (Setup.register M c.domain access_send tx_id)
                              (register-Passes c.domain access_send tx_id);
                      })
                      (λ _. record {
                        passes =
                            Passes-zoom (λ c. c.rx) (λ s c. record c { rx = s })
                              (Setup.register M c.domain access_recv rx_id)
                              (register-Passes c.domain access_recv rx_id);
                      })))))))))

  post_recv-Passes : Passes (post_recv M)
  unfolding post_recv
  post_recv-Passes s = ground arith

  post_until-Passing : (fuel deadline : ℕ) → Passing (Setup.post_until M fuel deadline)
  unfolding Setup.post_until
  post_until-Passing zero deadline = record { passes = λ s. refl }
  post_until-Passing (suc fuel) deadline =
      Passing-bind (post_recv M) _ (record { passes = post_recv-Passes })
        (λ posted.
          Passing-if posted (pure tt) _ (record { passes = λ s. refl })
            (Passing-bind (in_env M (do_now M)) _ (record { passes = λ s. refl })
              (λ t.
                Passing-if (leb deadline t) (raise (err (message "receive submission timeout"))) _
                  (record { passes = λ s. refl })
                  (Passing-bind (poll M) _ (record { passes = poll-Runs Unrejected-Steps })
                    (λ _.
                      Passing-bind (in_env M (do_sleep M millisecond)) _
                        (record { passes = λ s. refl }) (λ _. post_until-Passing fuel deadline))))))

  shutdown_started-Passes : Passes (Close.shutdown_started M)
  unfolding Close.shutdown_started
  shutdown_started-Passes s = ground arith

  Slot_close-Passes : Passes (Slot.close M)
  unfolding Slot.close Slot.free_op Slot.close_mr Slot.clear Slot.drop_bytes close_handle
  Slot_close-Passes s = ground arith

  pub initialize-Passing :
      (fuel : ℕ) (info : Info) (timeout : ℕ) → Passing (Setup.initialize M fuel info timeout)
  unfolding Setup.initialize
  initialize-Passing fuel info timeout =
      Passing-bind (Setup.open_resources M info) _ (open_resources-Passing info) (λ _.
        Passing-bind (in_env M (do_now M)) _ (record { passes = λ s. refl })
          (λ start. post_until-Passing fuel (start + timeout)))

  handle-Passes :
      Passes (Close.close_ep M)
      × Passes (Close.close_tx_cq M)
      × Passes (Close.close_rx_cq M)
      × Passes (Close.close_eq M)
      × Passes (Close.close_domain M)
  unfolding Close.close_ep Close.close_tx_cq Close.close_rx_cq Close.close_eq Close.close_domain
      close_handle
  handle-Passes = (
    λ s. ground arith,
    λ s. ground arith,
    λ s. ground arith,
    λ s. ground arith,
    λ s. ground arith,
  )

  slots-Passes : Passes (Close.close_tx M) × Passes (Close.close_rx M)
  unfolding Close.close_tx Close.close_rx
  slots-Passes = (
    Passes-zoom (λ c. c.tx) (λ s c. record c { tx = s }) (Slot.close M) Slot_close-Passes,
    Passes-zoom (λ c. c.rx) (λ s c. record c { rx = s }) (Slot.close M) Slot_close-Passes,
  )

  close-Passing : Passing (Close.close M)
  unfolding Close.close
  close-Passing =
      let (ep, tx_cq, rx_cq, eq, domain) = handle-Passes in
      Passing-bind (update M (λ c. record c { closing = true })) _ (record { passes = λ s. refl })
        (λ _.
          Passing-bind (Close.shutdown_started M) _ (record { passes = shutdown_started-Passes })
            (λ _.
              Passing-bind (Close.close_ep M) _ (record { passes = ep })
                (λ _.
                  Passing-bind (Close.close_tx_cq M) _ (record { passes = tx_cq })
                    (λ _.
                      Passing-bind (Close.close_rx_cq M) _ (record { passes = rx_cq })
                        (λ _.
                          Passing-bind (Close.close_tx M) _ (record { passes = slots-Passes.0 })
                            (λ _.
                              Passing-bind (Close.close_rx M) _ (record { passes = slots-Passes.1 })
                                (λ _.
                                  Passing-bind (Close.close_eq M) (λ _. Close.close_domain M)
                                    (record { passes = eq })
                                    (λ _. record { passes = domain }))))))))

  bytes_drop-Unrejected :
      (b : Option Slot.Bytes) (e : Env M) → Unrejected e (Slot.drop_bytes M b e).1
  unfolding Slot.drop_bytes
  bytes_drop-Unrejected b e = ground arith

  pub drop-Unrejected : (c : Connection) (e : Env M) → Unrejected e (Close.drop M c e)
  unfolding Close.drop
  drop-Unrejected c e =
      let closed = Close.close M (record { self = c; env = e }) in
      let left = Close.after_close M closed.0 closed.1.self in
      let tx_dropped = (Slot.drop_bytes M left.tx.bytes closed.1.env).1 in
      bytes_drop-Unrejected left.rx.bytes tx_dropped
      ∙ bytes_drop-Unrejected left.tx.bytes closed.1.env
      ∙ close-Passing.passes (record { self = c; env = e })
