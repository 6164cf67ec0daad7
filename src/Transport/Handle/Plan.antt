-- ===== src/Transport/Handle/Plan.antt =====
-- Cleanup as a plan: the calls that an object still owes, in the order in which `close` makes them,
-- and what it means that a method carried a plan out up to its first failure.
use rdma_prototype.Base.{
  ◌≡◌, refl, sym, ap, ◌∙◌, ◌⊎◌, inl, inr, List, [], ◌∷◌, ◌++◌, arith, ℤ, pos, negsuc, is_zero,
  Bool-cases, String, true, false, if◌then◌else◌,
}
use rdma_prototype.Outcome.{Outcome, ok, err, panic, unfinished, failed}
use rdma_prototype.Ffi.{Ptr, null, is_null, Status}
use rdma_prototype.Machine.{Machine, At, Exec, Call, called, released, resume, ◌>>◌, zoom}
use rdma_prototype.Transport.Handle.{close_handle}

-- A call that closes something, or the release of a buffer.
pub data Step : Type 0 where
  close : Status → Step
  free : Ptr → Step

-- The plan for one handle.
abbrev pub closing : (Ptr → Status) → Ptr → List Step
closing function handle = if is_null handle then [] else close (function handle) ∷ []

abbrev pub Fails : Outcome Unit → Type 0
Fails (err e) = Unit
Fails _ = ⊥

-- `Ran plan old new r left`: the steps of `plan` were made in order on top of the trace `old`,
-- each with code 0, until one failed or none was left; `left` is what remains, from the failed
-- step on, and `r` is an error exactly if there was one.
abbrev pub Ran : List Step → List Call → List Call → Outcome Unit → List Step → Type 0
Ran [] old new r left = (new ≡ old) × (r ≡ ok tt) × (left ≡ [])
Ran (free p ∷ plan) old new r left = Ran plan (released p ∷ old) new r left
Ran (close c ∷ plan) old new r left =
    ((code : ℤ) × (is_zero code ≡ false)
      × (new ≡ called c code ∷ old)
      × (left ≡ close c ∷ plan)
      × Fails r)
    ⊎ Ran plan (called c (pos 0) ∷ old) new r left

eq_of_is_zero : (code : ℤ) → is_zero code ≡ true → code ≡ pos 0
eq_of_is_zero (pos n) h = ground arith
eq_of_is_zero (negsuc n) h = cc

-- A plan that succeeded is followed by the next.
pub Ran-append :
    (p q : List Step) (old mid new : List Call) (r : Outcome Unit) (left : List Step)
    → Ran p old mid (ok tt) []
    → Ran q mid new r left
    → Ran (p ++ q) old new r left
Ran-append [] q old mid new r left h k = rw h.0 at k
Ran-append (free x ∷ p) q old mid new r left h k =
    Ran-append p q (released x ∷ old) mid new r left h k
Ran-append (close c ∷ p) q old mid new r left h k = elim h [
  | inl stopped ↦ absurd stopped.4
  | inr rest ↦ inr (Ran-append p q (called c (pos 0) ∷ old) mid new r left rest k)
]

-- A plan that failed stops what would follow.
pub Ran-stop :
    (p q : List Step) (old mid : List Call) (r : Outcome Unit) (left : List Step)
    → Fails r
    → Ran p old mid r left
    → Ran (p ++ q) old mid r (left ++ q)
Ran-stop [] q old mid (err e) left f h = cc (h.1)
Ran-stop [] q old mid (ok u) left f h = absurd f
Ran-stop [] q old mid panic left f h = absurd f
Ran-stop [] q old mid unfinished left f h = absurd f
Ran-stop (free x ∷ p) q old mid r left f h = Ran-stop p q (released x ∷ old) mid r left f h
Ran-stop (close c ∷ p) q old mid r left f h = elim h [
  | inl (code, bad, made, rest, e) ↦ inl (code, bad, made, ap (λ (l : List Step). l ++ q) rest, e)
  | inr rest ↦ inr (Ran-stop p q (called c (pos 0) ∷ old) mid r left f rest)
]

-- Without a failure nothing is left.
pub Ran-done :
    (p : List Step) (old new : List Call) (left : List Step)
    → Ran p old new (ok tt) left
    → left ≡ []
Ran-done [] old new left h = h.2
Ran-done (free x ∷ p) old new left h = Ran-done p (released x ∷ old) new left h
Ran-done (close c ∷ p) old new left h = elim h [
  | inl stopped ↦ absurd stopped.4
  | inr rest ↦ Ran-done p (called c (pos 0) ∷ old) new left rest
]

-- A plan ends by success or by an error.
pub Ran-ends :
    (p : List Step) (old new : List Call) (r : Outcome Unit) (left : List Step)
    → Ran p old new r left
    → (r ≡ ok tt) ⊎ Fails r
Ran-ends [] old new r left h = inl h.1
Ran-ends (free x ∷ p) old new r left h = Ran-ends p (released x ∷ old) new r left h
Ran-ends (close c ∷ p) old new r left h = elim h [
  | inl stopped ↦ inr stopped.4
  | inr rest ↦ Ran-ends p (called c (pos 0) ∷ old) new r left rest
]

module _ (M : Machine) where
  -- A method that carries out the plan of its object, and leaves the rest of it as the plan.
  pub record Closes {T : Type 0} (plan : T → List Step) (m : Exec (At M T) Unit) : Type 0 where
    pub at :
        (s : At M T) → Ran (plan s.self) s.env.trace (m s).1.env.trace (m s).0 (plan (m s).1.self)

  -- A method that does not change what `get` reads.
  pub record Keeps {T A : Type 0} (get : T → A) (m : Exec (At M T) Unit) : Type 0 where
    pub at : (s : At M T) → get (m s).1.self ≡ get s.self

  module _ (function : Ptr → Status) (name : String) (s : At M Ptr) where
    close_handle_null : is_null s.self ≡ true → close_handle M function name s ≡ (ok tt, s)
    unfolding close_handle
    close_handle_null h = ground arith

    -- The code that the close of the handle would return.
    abbrev code : ℤ
    code = (M.status (function s.self) s.env.world).0

    close_handle_trace :
        is_null s.self ≡ false
        → (close_handle M function name s).1.env.trace ≡ called (function s.self) code ∷ s.env.trace
    unfolding close_handle
    close_handle_trace h = ground arith

    close_handle_ok :
        is_null s.self ≡ false
        → code ≡ pos 0
        → ((close_handle M function name s).0 ≡ ok tt)
          × ((close_handle M function name s).1.self ≡ null)
    unfolding close_handle
    close_handle_ok h e = ground arith

    close_handle_err :
        is_null s.self ≡ false
        → is_zero code ≡ false
        → ((close_handle M function name s).0 ≡ err (failed name (M.error_string code) code))
          × ((close_handle M function name s).1.self ≡ s.self)
    unfolding close_handle
    close_handle_err h e = ground arith

    close_handle-Ran :
        Ran
          (closing function s.self)
          s.env.trace
          (close_handle M function name s).1.env.trace
          (close_handle M function name s).0
          (closing function (close_handle M function name s).1.self)
    close_handle-Ran = elim (Bool-cases (is_null s.self)) [
      | inl none_held ↦ rw (close_handle_null none_held) (rw none_held (refl, refl, refl))
      | inr held ↦ elim (Bool-cases (is_zero code)) [
        | inl zero_code ↦
            let e = close_handle_ok held (eq_of_is_zero code zero_code) in
            rw (close_handle_trace held, e.0, e.1, held)
              (inr (rw (eq_of_is_zero code zero_code) (refl, refl, refl)))
        | inr failed_code ↦
            let e = close_handle_err held failed_code in
            rw (close_handle_trace held, e.0, e.1, held) (inl (code, failed_code, refl, refl, tt))
      ]
    ]

  pub Closes-close_handle :
      (function : Ptr → Status) (name : String)
      → Closes (closing function) (close_handle M function name)
  Closes-close_handle function name = record { at = close_handle-Ran function name }

  module _ {T P : Type 0} (get : T → P) (put : P → T → T) where
    pub Closes-zoom :
        (plan : P → List Step) (m : Exec (At M P) Unit)
        → ((p : P) (t : T) → get (put p t) ≡ p)
        → Closes plan m
        → Closes (λ t. plan (get t)) (zoom M get put m)
    Closes-zoom plan m lens h = record {
      at = λ s.
          let inner : At M P = record { self = get s.self; env = s.env } in
          rw (lens (m inner).1.self s.self) (h.at inner);
    }

    pub Keeps-zoom :
        {A : Type 0} (read : T → A) (m : Exec (At M P) Unit)
        → ((p : P) (t : T) → read (put p t) ≡ read t)
        → Keeps read (zoom M get put m)
    Keeps-zoom read m lens = record { at = λ s. lens _ s.self }

  module _ {T : Type 0} where
    resume-keep :
        {A : Type 0} (read : T → A) (n : Exec (At M T) Unit) (a : A)
        → Keeps read n
        → (r : Outcome Unit) (t : At M T) → read t.self ≡ a
        → read (resume r (λ _. n) t).1.self ≡ a
    resume-keep read n a hn (ok u) t e = hn.at t ∙ e
    resume-keep read n a hn (err x) t e = e
    resume-keep read n a hn panic t e = e
    resume-keep read n a hn unfinished t e = e

    pub Keeps-seq :
        {A : Type 0} (read : T → A) (m n : Exec (At M T) Unit)
        → Keeps read m
        → Keeps read n
        → Keeps read (m >> n)
    Keeps-seq read m n hm hn = record {
      at = λ s. resume-keep read n (read s.self) hn (m s).0 (m s).1 (hm.at s);
    }

    resume-Ran :
        (p q : T → List Step) (n : Exec (At M T) Unit)
        → Closes q n
        → Keeps p n
        → (plan : List Step) (old : List Call) (r : Outcome Unit) (t : At M T)
        → Ran plan old t.env.trace r (p t.self)
        → let (r', t') = resume r (λ _. n) t in
          Ran (plan ++ q t.self) old t'.env.trace r' (p t'.self ++ q t'.self)
    resume-Ran p q n hn kp plan old (ok u) t h =
        let e = Ran-done plan old t.env.trace (p t.self) h in
        rw (kp.at t, e)
          (Ran-append plan (q t.self) old t.env.trace (n t).1.env.trace (n t).0 (q (n t).1.self)
            (rw e at h) (hn.at t))
    resume-Ran p q n hn kp plan old (err x) t h =
        Ran-stop plan (q t.self) old t.env.trace (err x) (p t.self) tt h
    resume-Ran p q n hn kp plan old panic t h = elim (Ran-ends plan old t.env.trace panic _ h) [
      | inl e ↦ cc
      | inr f ↦ absurd f
    ]
    resume-Ran p q n hn kp plan old unfinished t h =
        elim (Ran-ends plan old t.env.trace unfinished _ h) [ inl e ↦ cc | inr f ↦ absurd f ]

    -- Two plans in a row, where neither method touches what the other's plan reads.
    pub Closes-seq :
        (p q : T → List Step) (m n : Exec (At M T) Unit)
        → Closes p m
        → Closes q n
        → Keeps q m
        → Keeps p n
        → Closes (λ t. p t ++ q t) (m >> n)
    Closes-seq p q m n hm hn kq kp = record {
      at = λ s.
          rw (sym (kq.at s))
            (resume-Ran p q n hn kp (p s.self) s.env.trace (m s).0 (m s).1 (hm.at s));
    }
