-- ===== src/Machine.antt =====
-- What the transport runs on: the C shim, the clock and the memory behind `Box<[u8]>`, as one
-- interface over an abstract world, and the state monad of Rust code over it.
pub mod Laws
pub mod Logic
pub mod Safety
pub mod Halting
pub mod Lasting
pub mod Clock
pub mod Behaviour
pub mod Asserting
use rdma_prototype.Base.{ℕ, ℤ, List, ◌∷◌, Bool, true, false, if◌then◌else◌, is_zero, String}
use rdma_prototype.Outcome.{
  Outcome, ok, err, panic, unfinished, Error, failed, Result, value, error,
}
use rdma_prototype.Ffi.{Ptr, Completion, ConnectEvent, Open, Status}

pub record Machine : Type 1 where
  pub World : Type 0
  -- the code, and what `*out` holds afterwards
  pub open_handle : Open → World → ℤ × Ptr × World
  pub status : Status → World → ℤ × World
  pub eq_poll : Ptr → World → ℤ × ConnectEvent × World
  pub cq_poll : Ptr → World → ℤ × Completion × World
  pub info_free : Ptr → World → World
  -- `shim_fabric_version`, a `uint32_t`
  pub fabric_version : ℕ
  pub error_string : ℤ → List ℕ
  pub error_is_again : ℤ → ℤ
  -- `Instant::now` and `thread::sleep`, in nanoseconds
  pub now : World → ℕ × World
  pub sleep : ℕ → World → World
  -- `vec![0; n].into_boxed_slice()`, the bytes of a box, `copy_from_slice` to its front, its drop
  pub allocate : ℕ → World → Ptr × World
  pub load : Ptr → World → List ℕ
  pub store : Ptr → List ℕ → World → World
  pub release : Ptr → World → World

-- An entry of the trace, with the result of the call.
pub data Call : Type 0 where
  opened : Open → ℤ → Ptr → Call
  called : Status → ℤ → Call
  polled_eq polled_cq : Ptr → ℤ → Call
  freed_info stored released : Ptr → Call

-- The world, and the calls made so far, newest first; the trace is never read by the code.
pub record Env (M : Machine) : Type 0 where
  pub world : M.World
  pub trace : List Call

-- What a `&mut self` method reads and writes: its object and the environment.
pub record At (M : Machine) (T : Type 0) : Type 0 where
  pub self : T
  pub env : Env M

-- State survives an error: what was written before `?` returned stays written.
abbrev pub Exec : Type 0 → Type 0 → Type 0
Exec S A = S → Outcome A × S

module _ {S A : Type 0} where
  abbrev pub pure : A → Exec S A
  pure a s = (ok a, s)

  abbrev pub raise : Outcome A → Exec S A
  raise r s = (r, s)

  abbrev pub gets : (S → A) → Exec S A
  gets f s = (ok (f s), s)

abbrev pub caught : {A : Type 0} → Outcome A → Outcome (Result A)
caught (ok a) = ok (value a)
caught (err e) = ok (error e)
caught panic = panic
caught unfinished = unfinished

-- The result of a block as a value: `let r = (|| …)();`.
module _ {S A : Type 0} where
  abbrev pub attempt : Exec S A → Exec S (Result A)
  attempt m s = let (r, s') = m s in (caught r, s')

  -- `Err(e)?` or the value
  abbrev pub throw : Result A → Exec S A
  throw (value a) = pure a
  throw (error e) = raise (err e)

module _ {S A B : Type 0} where
  abbrev pub resume : Outcome A → (A → Exec S B) → Exec S B
  resume (ok a) f s = f a s
  resume (err e) f s = (err e, s)
  resume panic f s = (panic, s)
  resume unfinished f s = (unfinished, s)

  infixl 5 ◌>>=◌ ◌>>◌
  abbrev pub ◌>>=◌ : Exec S A → (A → Exec S B) → Exec S B
  ◌>>=◌ m f s = let (r, s') = m s in resume r f s'

  abbrev pub ◌>>◌ : Exec S A → Exec S B → Exec S B
  m >> k = m >>= λ _. k

module _ (M : Machine) where
  -- `check` of transport.rs
  unfoldable pub check : ℤ → String → Outcome Unit
  check code operation =
      if is_zero code then ok tt else err (failed operation (M.error_string code) code)

  module _ {T : Type 0} where
    -- Run an action of the environment inside a method.
    abbrev pub in_env : {A : Type 0} → Exec (Env M) A → Exec (At M T) A
    in_env m s = let (r, e) = m s.env in (r, record s { env = e })

    -- Run a method of a field.
    abbrev pub zoom : {P A : Type 0} → (T → P) → (P → T → T) → Exec (At M P) A → Exec (At M T) A
    zoom get put m s =
        let (r, t) = m (record { self = get s.self; env = s.env }) in
        (r, record { self = put t.self s.self; env = t.env })

    abbrev pub update : (T → T) → Exec (At M T) Unit
    update f s = (ok tt, record s { self = f s.self })

    abbrev pub me : Exec (At M T) T
    me s = (ok s.self, s)

  -- The foreign calls, each noted in the trace.
  abbrev pub do_status : Status → Exec (Env M) ℤ
  do_status c s =
      let (code, w) = M.status c s.world in
      (ok code, record { world = w; trace = called c code ∷ s.trace })

  abbrev pub do_open : Open → Exec (Env M) (ℤ × Ptr)
  do_open c s =
      let (code, h, w) = M.open_handle c s.world in
      (ok (code, h), record { world = w; trace = opened c code h ∷ s.trace })

  abbrev pub do_eq_poll : Ptr → Exec (Env M) (ℤ × ConnectEvent)
  do_eq_poll q s =
      let (code, event, w) = M.eq_poll q s.world in
      (ok (code, event), record { world = w; trace = polled_eq q code ∷ s.trace })

  abbrev pub do_cq_poll : Ptr → Exec (Env M) (ℤ × Completion)
  do_cq_poll q s =
      let (code, done, w) = M.cq_poll q s.world in
      (ok (code, done), record { world = w; trace = polled_cq q code ∷ s.trace })

  abbrev pub do_info_free : Ptr → Exec (Env M) Unit
  do_info_free i s =
      (ok tt, record { world = M.info_free i s.world; trace = freed_info i ∷ s.trace })

  abbrev pub do_now : Exec (Env M) ℕ
  do_now s = let (t, w) = M.now s.world in (ok t, record s { world = w })

  abbrev pub do_sleep : ℕ → Exec (Env M) Unit
  do_sleep d s = (ok tt, record s { world = M.sleep d s.world })

  abbrev pub do_allocate : ℕ → Exec (Env M) Ptr
  do_allocate n s = let (p, w) = M.allocate n s.world in (ok p, record s { world = w })

  abbrev pub do_load : Ptr → Exec (Env M) (List ℕ)
  do_load p s = (ok (M.load p s.world), s)

  abbrev pub do_store : Ptr → List ℕ → Exec (Env M) Unit
  do_store p bs s = (ok tt, record { world = M.store p bs s.world; trace = stored p ∷ s.trace })

  abbrev pub do_release : Ptr → Exec (Env M) Unit
  do_release p s = (ok tt, record { world = M.release p s.world; trace = released p ∷ s.trace })

  -- A function that builds an object step by step: `Ok(object)`, or the object dropped.
  unfoldable pub construct :
      {T : Type 0} → T → (T → Env M → Env M) → Exec (At M T) Unit → Exec (Env M) T
  construct start drop build e =
      let (r, s) = build (record { self = start; env = e }) in
      elim r [
        | ok _ ↦ (ok s.self, s.env)
        | err x ↦ (err x, drop s.self s.env)
        | panic ↦ (panic, drop s.self s.env)
        | unfinished ↦ (unfinished, drop s.self s.env)
      ]

  -- A block that owns an object: the object is dropped at its end, however it ends.
  unfoldable pub owning :
      {T A : Type 0} → T → (T → Env M → Env M) → Exec (At M T) A → Exec (Env M) A
  owning start drop block e =
      let (r, s) = block (record { self = start; env = e }) in (r, drop s.self s.env)

  -- `Drop::drop` of a type that closes itself: an error is printed, and goes no further.
  abbrev pub drop_by : {T : Type 0} → Exec (At M T) Unit → T → Env M → Env M
  drop_by close t e = (close (record { self = t; env = e })).1.env
