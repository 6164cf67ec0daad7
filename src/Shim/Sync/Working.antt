-- ===== src/Shim/Sync/Working.antt =====
-- `send` and `post_recv` of src/transport.rs on naive/fabric_shim.c.
use rdma_prototype.Base.{
  Option, ℤ, pos, negsuc, Bool, true, false, not, ◌||◌, ◌≡◌, ◌≢◌, ◌∙◌, refl, inl, inr, some, none,
  is_zero, is_negative, Bool-cases, if◌then◌else◌, String, List, length, ltb, ℕ, arith,
}
use rdma_prototype.Outcome.{Outcome, ok, err, panic, unfinished, Error, message, failed}
use rdma_prototype.Ffi as Ffi
use rdma_prototype.Ffi.{Ptr, Status}
use rdma_prototype.Machine.{
  Machine, At, Exec, pure, raise, ◌>>=◌, ◌>>◌, in_env, update, check, do_status, do_store,
}
use rdma_prototype.Machine.Behaviour.{Behaves, Behaves-if}
use rdma_prototype.Libfabric.{Libfabric, Errno, eagain}
use rdma_prototype.Transport.Connection.{
  Connection, ensure_open, unwrap, front, send, post_recv, set_tx_pending, set_rx_pending,
}
use rdma_prototype.Transport.Slot.{Bytes}
use rdma_prototype.Transport.Connection.Buffers.{Holds}
use rdma_prototype.Shim.Objects.{Store}
use rdma_prototype.Shim.Polling.{same_code}
use rdma_prototype.Shim.Querying as Querying
use rdma_prototype.Shim.Linking.{shim_status}
use rdma_prototype.Shim.Backing.{Backed, Serves, memory}
use rdma_prototype.Shim.Sync.Synchrony.{InStep, Submitted, tx_flag-InStep, rx_flag-InStep}
use rdma_prototype.Shim.Sync.Reporting.{post_send-Submitted, post_recv-Submitted}

-- The error codes of libfabric are negative.
abbrev pub Negative : Libfabric → Type 0
Negative L = (e : Errno) → is_negative (L.code e) ≡ true

-- A connection in step with the shim, whose slots have their buffers.
abbrev pub Works : {M : Machine} {L : Libfabric} → Backed M L → At M Connection → Type 0
Works backed s = InStep s.self (memory backed s) × Holds s.self

-- The rule for an `unwrap` that finds a value.
pub unwrapped-Behaves :
    {S A B : Type 0} (F : Error → Type 0) (I : S → Type 0) (P : A → S → Type 0) (o : Option B)
    (f : B → Exec S A) (s : S)
    → o ≢ none
    → ((b : B) → Behaves F I P (f b s))
    → Behaves F I P ((raise (unwrap o) >>= f) s)
unfolding unwrap
unwrapped-Behaves F I P none f s there h = absurd (there refl)
unwrapped-Behaves F I P (some b) f s there h = h b

zero_again : (code : ℤ) → is_negative code ≡ true → same_code (pos 0) code ≡ false
zero_again (pos n) h = ground arith
zero_again (negsuc n) h = refl

module _ {M : Machine} {L : Libfabric} (backed : Backed M L) (negative : Negative L)
    (F : Error → Type 0)
    (any_failure : (name : String) (text : List ℕ) (code : ℤ) → F (failed name text code)) where
  abbrev Stays : {A : Type 0} → Outcome A × At M Connection → Type 0
  Stays r = Behaves F (Works backed) (λ _ u. Works backed u) r

  -- What follows the submission in `send` and in `post_recv`.
  abbrev after_post : (Connection → Connection) → String → ℤ → Exec (At M Connection) Bool
  after_post set name ret =
      if not (is_zero (M.error_is_again ret))
      then pure false
      else (do raise (check M ret name); update M set; pure true)

  after_post-Stays :
      (set : Connection → Connection) (name : String) (ret : ℤ) (s : At M Connection)
      → Works backed s
      → InStep (set s.self) (memory backed s)
      → Holds (set s.self)
      → Stays (after_post set name ret s)
  unfolding check
  after_post-Stays set name ret s works later holds =
      elim (Bool-cases (not (is_zero (M.error_is_again ret)))) [
        | inl again ↦ rw again works
        | inr decided ↦ rw decided (elim (Bool-cases (is_zero ret)) [
          | inl zero ↦ rw zero (later, holds)
          | inr failure ↦ rw failure (any_failure name (M.error_string ret) ret, works)
        ])
      ]

  after_zero-Stays :
      (set : Connection → Connection) (name : String) (ret : ℤ) (s : At M Connection)
      → ret ≡ pos 0
      → InStep (set s.self) (memory backed s)
      → Holds (set s.self)
      → Stays (after_post set name ret s)
  unfolding check Querying.error_is_again
  after_zero-Stays set name ret s zero later holds = rw zero (
      rw (backed.error_is_again (pos 0))
        (rw (zero_again (L.code eagain) (negative eagain)) (later, holds)))

  -- A submission on the shim.
  submission-Stays :
      (set : Connection → Connection) (call : Status) (name : String) (s : At M Connection)
      → Works backed s
      → Submitted s.self (set s.self) (shim_status L call (memory backed s))
      → ((t : Store L) → InStep s.self t → InStep (set s.self) t)
      → Holds (set s.self)
      → Stays ((in_env M (do_status M call) >>= after_post set name) s)
  submission-Stays set call name s works submitted weaker holds =
      let shim = shim_status L call (memory backed s) in
      go shim.0 shim.1 (backed.status call s.env.world) submitted
    where
      after : At M Connection
      after = (in_env M (do_status M call) s).1

      go :
          (r : Outcome ℤ) (t : Store L)
          → Serves backed.store (M.status call s.env.world) (r, t)
          → Submitted s.self (set s.self) (r, t)
          → Stays ((in_env M (do_status M call) >>= after_post set name) s)
      go (ok code) t serves (inl same) =
          after_post-Stays set name (M.status call s.env.world).0 after (rw serves.1 same, works.1)
            (rw serves.1 (weaker t same)) holds
      go (ok code) t serves (inr (fine, later)) =
          after_zero-Stays set name (M.status call s.env.world).0 after (serves.0 ∙ fine)
            (rw serves.1 later) holds
      go (err e) t serves submitted = absurd submitted
      go panic t serves submitted = absurd submitted
      go unfinished t serves submitted = absurd submitted

  module _ (any_message : (text : String) → F (message text)) where
    ensured-Stays :
        {A : Type 0} (m : Exec (At M Connection) A) (s : At M Connection)
        → Works backed s
        → Stays (m s)
        → Stays ((raise (ensure_open s.self) >> m) s)
    unfolding ensure_open
    ensured-Stays m s works h = elim (Bool-cases (Ffi.is_null s.self.ep || s.self.closing)) [
      | inl closed ↦ rw closed (any_message _, works)
      | inr live ↦ rw live h
    ]

    pub post_recv-Stays : (s : At M Connection) → Works backed s → Stays (post_recv M s)
    unfolding post_recv
    post_recv-Stays s (step, holds) =
        ensured-Stays _ s (step, holds)
          (Behaves-if F (Works backed) (λ _ u. Works backed u) s.self.rx.pending _ _ s
            (λ _. (any_message _, (step, holds)))
            (λ _.
              unwrapped-Behaves F (Works backed) (λ _ u. Works backed u) s.self.rx.bytes _ s holds.1
                (λ b.
                  submission-Stays (set_rx_pending true)
                    (Ffi.post_recv s.self.ep s.self.rx.op s.self.rx.mr b.len b.ptr) "shim_post_recv"
                    s (step, holds) (post_recv-Submitted s.self b.len b.ptr (memory backed s) step)
                    (rx_flag-InStep s.self) holds)))

    -- The slice of the buffer is in its bounds, by the test before it.
    front-Stays :
        {A : Type 0} (b : Bytes) (n : ℕ) (m : Exec (At M Connection) A) (s : At M Connection)
        → ltb b.len n ≡ false
        → Stays (m s)
        → Stays ((raise (front b n) >> m) s)
    unfolding front
    front-Stays b n m s fits h = rw fits h

    pub send-Stays : (text : List ℕ) (s : At M Connection) → Works backed s → Stays (send M text s)
    unfolding send
    send-Stays text s (step, holds) =
        ensured-Stays _ s (step, holds)
          (Behaves-if F (Works backed) (λ _ u. Works backed u) s.self.tx.pending _ _ s
            (λ _. (any_message _, (step, holds)))
            (λ _.
              unwrapped-Behaves F (Works backed) (λ _ u. Works backed u) s.self.tx.bytes _ s holds.0
                (λ b.
                  Behaves-if F (Works backed) (λ _ u. Works backed u) (ltb b.len (length text)) _ _
                    s (λ _. (any_message _, (step, holds)))
                    (λ fits. front-Stays b (length text) _ s fits (
                      let stored : At M Connection = (in_env M (do_store M b.ptr text) s).1 in
                      let same : memory backed stored ≡ memory backed s =
                        backed.write b.ptr text s.env.world in
                      let still : InStep s.self (memory backed stored) = rw same step in
                      submission-Stays (set_tx_pending true)
                        (Ffi.post_send s.self.ep s.self.tx.op s.self.tx.mr (length text) b.ptr)
                        "shim_post_send" stored (still, holds)
                        (post_send-Submitted s.self (length text) b.ptr (memory backed stored)
                          still)
                        (tx_flag-InStep s.self) holds)))))
