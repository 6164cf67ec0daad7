-- ===== src/Machine/Halting.antt =====
-- A program logic: an action does not run out of fuel, from any state.
use rdma_prototype.Base.{Bool, true, false, if◌then◌else◌}
use rdma_prototype.Outcome.{Outcome, ok, err, panic, unfinished, Result, value, error}
use rdma_prototype.Machine.{
  Machine, At, Env, Exec, ◌>>=◌, attempt, throw, caught, zoom, in_env, construct, owning,
}
use rdma_prototype.Machine.Safety.{Safe}
use rdma_prototype.Machine.Logic.{Finishes, Finishes-bind}

-- A call that has come back with a value or an error.
unfoldable pub IsAnswer : {A : Type 0} → Outcome A → Type 0
IsAnswer (ok a) = Unit
IsAnswer (err e) = Unit
IsAnswer panic = ⊥
IsAnswer unfinished = ⊥

module _ {S : Type 0} where
  abbrev pub Halted : {A : Type 0} → Outcome A × S → Type 0
  Halted = Finishes (λ _ _. Unit)

  abbrev pub Halts : {A : Type 0} → Exec S A → Type 0
  Halts m = (s : S) → Halted (m s)

  -- What does not panic and does not run out of fuel answers.
  pub Halted-IsAnswer :
      {A : Type 0} (r : Outcome A) (t : S)
      → Halted (r, t)
      → Safe (λ _ _. Unit) (λ _. Unit) (r, t)
      → IsAnswer r
  unfolding IsAnswer
  Halted-IsAnswer (ok a) t h k = tt
  Halted-IsAnswer (err e) t h k = tt
  Halted-IsAnswer panic t h k = k
  Halted-IsAnswer unfinished t h k = h

  pub Halts-bind :
      {A B : Type 0} (m : Exec S A) (f : A → Exec S B)
      → Halts m
      → ((a : A) → Halts (f a))
      → Halts (m >>= f)
  Halts-bind m f hm hf s = Finishes-bind (λ _ _. Unit) (λ _ _. Unit) m f s (hm s) (λ a u _. hf a u)

  pub Halts-if :
      {A : Type 0} (b : Bool) (m n : Exec S A) → Halts m → Halts n → Halts (if b then m else n)
  Halts-if true m n hm hn = hm
  Halts-if false m n hm hn = hn

  Halted-caught : {A : Type 0} (r : Outcome A) (t : S) → Halted (r, t) → Halted (caught r, t)
  Halted-caught (ok a) t h = h
  Halted-caught (err e) t h = h
  Halted-caught panic t h = h
  Halted-caught unfinished t h = h

  pub Halts-attempt : {A : Type 0} (m : Exec S A) → Halts m → Halts (attempt m)
  Halts-attempt m hm s = Halted-caught (m s).0 (m s).1 (hm s)

  pub Halts-throw : {A : Type 0} (r : Result A) → Halts (throw {S = S} r)
  Halts-throw (value a) s = tt
  Halts-throw (error e) s = tt

-- Only the outcome matters.
pub Halted-at :
    {S T A : Type 0} (r : Outcome A) (s : S) (t : T) → Halted (r, s) → Halted {S = T} (r, t)
Halted-at (ok a) s t h = h
Halted-at (err e) s t h = h
Halted-at panic s t h = h
Halted-at unfinished s t h = h

module _ (M : Machine) where
  pub Halts-zoom :
      {T P A : Type 0} (get : T → P) (put : P → T → T) (m : Exec (At M P) A)
      → Halts m
      → Halts (zoom M get put m)
  Halts-zoom {T} {P} get put m hm s =
      let inner : At M P = record { self = get s.self; env = s.env } in
      Halted-at (m inner).0 (m inner).1 _ (hm inner)

  pub Halts-in_env : {T A : Type 0} (m : Exec (Env M) A) → Halts m → Halts {S = At M T} (in_env M m)
  Halts-in_env m hm s = Halted-at (m s.env).0 (m s.env).1 _ (hm s.env)

  pub Halts-owning :
      {T A : Type 0} (start : T) (drop : T → Env M → Env M) (block : Exec (At M T) A)
      → Halts block
      → Halts (owning M start drop block)
  unfolding owning
  Halts-owning {T} start drop block hb e =
      let s : At M T = record { self = start; env = e } in
      Halted-at (block s).0 (block s).1 _ (hb s)

  built :
      {T : Type 0} (drop : T → Env M → Env M) (r : Outcome Unit) (t : At M T)
      → Halted (r, t)
      → Halted (elim r as (λ _. Outcome T × Env M) [
        | ok _ ↦ (ok t.self, t.env)
        | err x ↦ (err x, drop t.self t.env)
        | panic ↦ (panic, drop t.self t.env)
        | unfinished ↦ (unfinished, drop t.self t.env)
      ])
  built drop (ok u) t h = tt
  built drop (err x) t h = tt
  built drop panic t h = tt
  built drop unfinished t h = h

  pub Halts-construct :
      {T : Type 0} (start : T) (drop : T → Env M → Env M) (build : Exec (At M T) Unit)
      → Halts build
      → Halts (construct M start drop build)
  unfolding construct
  Halts-construct {T} start drop build hb e =
      let s : At M T = record { self = start; env = e } in built drop (build s).0 (build s).1 (hb s)
