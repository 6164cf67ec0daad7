-- ===== src/Machine/Lasting.antt =====
-- A program logic: an action runs out of fuel only in an environment that has a property.
use rdma_prototype.Outcome.{Outcome, ok, err, panic, unfinished}
use rdma_prototype.Machine.{Machine, At, Env, Exec, resume, ◌>>=◌, attempt, caught, in_env, owning}
use rdma_prototype.Machine.Logic.{Ends}
use rdma_prototype.Machine.Halting.{Halted, Halts}

module _ {S : Type 0} (U : S → Type 0) where
  abbrev pub Lasted : {A : Type 0} → Outcome A × S → Type 0
  Lasted r = Ends (λ _ _. Unit) U r

  abbrev pub Lasts : {A : Type 0} → Exec S A → Type 0
  Lasts m = (s : S) → Lasted (m s)

  pub Lasts-Halts : {A : Type 0} (m : Exec S A) → Halts m → Lasts m
  Lasts-Halts {A = A} m h s = go (m s).0 (m s).1 (h s)
    where
      go : (r : Outcome A) (t : S) → Halted (r, t) → Lasted (r, t)
      go (ok a) t k = tt
      go (err e) t k = tt
      go panic t k = tt
      go unfinished t k = absurd k

  pub Lasts-bind :
      {A B : Type 0} (m : Exec S A) (f : A → Exec S B)
      → Lasts m
      → ((a : A) → Lasts (f a))
      → Lasts (m >>= f)
  Lasts-bind {A = A} m f hm hf s = go (m s).0 (m s).1 (hm s)
    where
      go : (r : Outcome A) (t : S) → Lasted (r, t) → Lasted (resume r f t)
      go (ok a) t k = hf a t
      go (err e) t k = tt
      go panic t k = tt
      go unfinished t k = k

  pub Lasts-attempt : {A : Type 0} (m : Exec S A) → Lasts m → Lasts (attempt m)
  Lasts-attempt {A = A} m hm s = go (m s).0 (m s).1 (hm s)
    where
      go : (r : Outcome A) (t : S) → Lasted (r, t) → Lasted (caught r, t)
      go (ok a) t k = tt
      go (err e) t k = tt
      go panic t k = tt
      go unfinished t k = k

module _ (M : Machine) (U : Env M → Type 0) where
  -- The same of a method.
  abbrev pub AtEnv : {T : Type 0} → At M T → Type 0
  AtEnv t = U t.env

  pub Lasts-in_env :
      {T A : Type 0} (m : Exec (Env M) A) → Lasts U m → Lasts (AtEnv {T = T}) (in_env M m)
  Lasts-in_env {A = A} m hm s = go (m s.env).0 (m s.env).1 (hm s.env)
    where
      go : (r : Outcome A) (e : Env M) → Lasted U (r, e) → Lasted AtEnv (r, record s { env = e })
      go (ok a) e k = tt
      go (err x) e k = tt
      go panic e k = tt
      go unfinished e k = k

  -- A scope whose drop keeps the property.
  pub Lasts-owning :
      {T A : Type 0} (start : T) (drop : T → Env M → Env M) (block : Exec (At M T) A)
      → ((t : T) (e : Env M) → U e → U (drop t e))
      → Lasts AtEnv block
      → Lasts U (owning M start drop block)
  unfolding owning
  Lasts-owning {T} {A} start drop block kept hb e =
      let s : At M T = record { self = start; env = e } in go (block s).0 (block s).1 (hb s)
    where
      go : (r : Outcome A) (t : At M T) → Lasted AtEnv (r, t) → Lasted U (r, drop t.self t.env)
      go (ok a) t k = tt
      go (err x) t k = tt
      go panic t k = tt
      go unfinished t k = kept t.self t.env k
