-- ===== src/Machine/Laws.antt =====
-- Relations that every call keeps, such as that the clock does not go back.
use rdma_prototype.Base.{ℕ, List}
use rdma_prototype.Outcome.{Outcome, ok, err, panic, unfinished}
use rdma_prototype.Ffi.{Ptr, Status}
use rdma_prototype.Machine.{
  Machine, At, Env, Exec, resume, ◌>>=◌, do_eq_poll, do_cq_poll, do_status, do_store,
}

-- Over an environment: the calls of a poll.
pub record Steps (M : Machine) (R : Env M → Env M → Type 0) : Type 0 where
  pub here : (e : Env M) → R e e
  pub then : {e f g : Env M} → R e f → R f g → R e g
  pub eq_poll : (q : Ptr) (e : Env M) → R e (do_eq_poll M q e).1
  pub cq_poll : (q : Ptr) (e : Env M) → R e (do_cq_poll M q e).1

-- And the calls of a send or a posted receive.
pub record Posts (M : Machine) (R : Env M → Env M → Type 0) : Type 0 where
  pub status : (c : Status) (e : Env M) → R e (do_status M c e).1
  pub store : (p : Ptr) (text : List ℕ) (e : Env M) → R e (do_store M p text e).1

module _ {M : Machine} {R : Env M → Env M → Type 0} (steps : Steps M R) {T : Type 0} where
  -- However the method ends.
  abbrev pub Runs : {A : Type 0} → Exec (At M T) A → Type 0
  Runs m = (s : At M T) → R s.env (m s).1.env

  resume-Runs :
      {A B : Type 0} (f : A → Exec (At M T) B)
      → ((a : A) → Runs (f a))
      → (r : Outcome A) (t : At M T) → R t.env (resume r f t).1.env
  resume-Runs f h (ok a) t = h a t
  resume-Runs f h (err e) t = steps.here t.env
  resume-Runs f h panic t = steps.here t.env
  resume-Runs f h unfinished t = steps.here t.env

  pub Runs-bind :
      {A B : Type 0} (m : Exec (At M T) A) (f : A → Exec (At M T) B)
      → Runs m
      → ((a : A) → Runs (f a))
      → Runs (m >>= f)
  Runs-bind m f hm hf s = steps.then (hm s) (resume-Runs f hf (m s).0 (m s).1)
