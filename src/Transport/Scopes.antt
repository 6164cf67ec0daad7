-- ===== src/Transport/Scopes.antt =====
-- Objects that work and are then closed in a scope, as in `run` of both applications.
use rdma_prototype.Outcome.{Result}
use rdma_prototype.Machine.{Machine, At, Env, Exec, owning, attempt, throw, in_env, me, ◌>>=◌}
use rdma_prototype.Machine.Safety.{
  Safe, Preserves, Preserves-bind, Preserves-attempt, Preserves-in_env, owning-Safe, NoPanic-throw,
  Safe-bind, NoPanic, Safe-weaken,
}
use rdma_prototype.Transport.Safety.{open_fabric-NoPanic, Fabric_close-NoPanic}
use rdma_prototype.Machine.Halting.{
  Halts, Halts-bind, Halts-attempt, Halts-throw, Halts-in_env, Halts-owning,
}
use rdma_prototype.Transport.Halting.{open_fabric-Halts, Fabric_close-Halts}
use rdma_prototype.Transport.Poll.{finish}
use rdma_prototype.Transport.Info
use rdma_prototype.Transport.Info.{Info}
use rdma_prototype.Transport.Fabric
use rdma_prototype.Transport.Fabric.{Fabric}

module _ (M : Machine) where
  -- The work of an object, then its close, then the first error of the two.
  finish-Safe :
      {T : Type 0} (I : At M T → Type 0) (work close : Exec (At M T) Unit)
      → Preserves I work
      → NoPanic close
      → (s : At M T) → I s
      → Safe
          (λ _ _. Unit)
          (λ _. Unit)
          ((attempt work >>= λ result. attempt close >>= λ closed. throw (finish result closed)) s)
  finish-Safe {T} I work close hw hc s h =
      let rest : Result Unit → Exec (At M T) Unit =
        λ result. attempt close >>= λ closed. throw (finish result closed) in
      Safe-bind (λ _ _. Unit) (λ _ _. Unit) (λ _. Unit) (attempt work) rest s
        (Safe-weaken (λ _ t. I t) (λ _ _. Unit) I (λ _. Unit) (attempt work s).0 (attempt work s).1
          (Preserves-attempt I work hw s h) (λ _ _ _. tt) (λ _ _. tt))
        (λ result u _.
          Preserves-bind (λ _. Unit) (attempt close) (λ closed. throw (finish result closed))
            (Preserves-attempt (λ _. Unit) close hc)
            (λ closed. NoPanic-throw (finish result closed)) u tt)

  -- An object that works and is then closed, within its scope.
  pub NoPanic-worked :
      {T : Type 0} (I : T → Type 0) (start : T) (drop : T → Env M → Env M)
      (work close : Exec (At M T) Unit)
      → I start
      → Preserves (λ (s : At M T). I s.self) work
      → NoPanic close
      → NoPanic (
          owning M start drop
            (attempt work >>= λ result. attempt close >>= λ closed. throw (finish result closed)))
  NoPanic-worked {T} I start drop work close h hw hc e _ =
      owning-Safe M (λ _. Unit) start drop
        (attempt work >>= λ result. attempt close >>= λ closed. throw (finish result closed)) e
        (finish-Safe (λ (s : At M T). I s.self) work close hw hc (record { self = start; env = e })
          h)

  -- The same, where the work is done in the environment.
  pub NoPanic-lent :
      {T : Type 0} (start : T) (drop : T → Env M → Env M) (work : T → Exec (Env M) Unit)
      (close : Exec (At M T) Unit)
      → ((t : T) → NoPanic (work t))
      → NoPanic close
      → NoPanic (
          owning M start drop (
            me M >>= λ t. attempt (in_env M (work t)) >>= λ result.
            attempt close >>= λ closed. throw (finish result closed)))
  NoPanic-lent {T} start drop work close hw hc e _ =
      owning-Safe M (λ _. Unit) start drop
        (me M >>= λ t. attempt (in_env M (work t)) >>= λ result.
          attempt close >>= λ closed. throw (finish result closed))
        e
        (finish-Safe (λ _. Unit) (in_env M (work start)) close
          (Preserves-in_env M (λ _. Unit) (work start) (hw start)) hc
          (record { self = start; env = e }) tt)

  -- The block of an application's `run`, in which the fabric is open.
  abbrev pub in_fabric : (Fabric → Exec (Env M) Unit) → Fabric → Exec (Env M) Unit
  in_fabric work fabric = owning M fabric (Fabric.drop M) (
      me M >>= λ f. attempt (in_env M (work f)) >>= λ result.
      attempt (Fabric.close M) >>= λ closed. throw (finish result closed))

  pub NoPanic-in_info :
      (info : Info) (work : Fabric → Exec (Env M) Unit)
      → ((f : Fabric) → NoPanic (work f))
      → NoPanic (
          owning M info
            (Info.drop M)
            (in_env M (Fabric.open_fabric M info) >>= λ fabric. in_env M (in_fabric work fabric)))
  NoPanic-in_info info work hw e _ =
      let block : Exec (At M Info) Unit =
        in_env M (Fabric.open_fabric M info) >>= λ fabric. in_env M (in_fabric work fabric) in
      owning-Safe M (λ _. Unit) info (Info.drop M) block e
        (Preserves-bind (λ _. Unit) (in_env M (Fabric.open_fabric M info))
          (λ fabric. in_env M (in_fabric work fabric))
          (Preserves-in_env M (λ _. Unit) (Fabric.open_fabric M info) (open_fabric-NoPanic M info))
          (λ fabric.
            Preserves-in_env M (λ _. Unit) (in_fabric work fabric)
              (NoPanic-lent fabric (Fabric.drop M) work (Fabric.close M) hw
                (Fabric_close-NoPanic M)))
          (record { self = info; env = e }) tt)

  -- The same three for fuel.
  pub Halts-worked :
      {T : Type 0} (start : T) (drop : T → Env M → Env M) (work close : Exec (At M T) Unit)
      → Halts work
      → Halts close
      → Halts (
          owning M start drop
            (attempt work >>= λ result. attempt close >>= λ closed. throw (finish result closed)))
  Halts-worked {T} start drop work close hw hc = Halts-owning M start drop _ (
      Halts-bind (attempt work)
        (λ result. attempt close >>= λ closed. throw {S = At M T} (finish result closed))
        (Halts-attempt work hw)
        (λ result.
          Halts-bind (attempt close) (λ closed. throw (finish result closed))
            (Halts-attempt close hc) (λ closed. Halts-throw (finish result closed))))

  pub Halts-lent :
      {T : Type 0} (start : T) (drop : T → Env M → Env M) (work : T → Exec (Env M) Unit)
      (close : Exec (At M T) Unit)
      → ((t : T) → Halts (work t))
      → Halts close
      → Halts (
          owning M start drop (
            me M >>= λ t. attempt (in_env M (work t)) >>= λ result.
            attempt close >>= λ closed. throw (finish result closed)))
  Halts-lent {T} start drop work close hw hc = Halts-owning M start drop _ (
      Halts-bind (me M)
        (λ t. attempt (in_env M (work t)) >>= λ result.
          attempt close >>= λ closed. throw {S = At M T} (finish result closed))
        (λ s. tt)
        (λ t.
          Halts-bind (attempt (in_env M (work t)))
            (λ result. attempt close >>= λ closed. throw {S = At M T} (finish result closed))
            (Halts-attempt (in_env M (work t)) (Halts-in_env M (work t) (hw t)))
            (λ result.
              Halts-bind (attempt close) (λ closed. throw (finish result closed))
                (Halts-attempt close hc) (λ closed. Halts-throw (finish result closed)))))

  pub Halts-in_info :
      (info : Info) (work : Fabric → Exec (Env M) Unit)
      → ((f : Fabric) → Halts (work f))
      → Halts (
          owning M info
            (Info.drop M)
            (in_env M (Fabric.open_fabric M info) >>= λ fabric. in_env M (in_fabric work fabric)))
  Halts-in_info info work hw = Halts-owning M info (Info.drop M) _ (
      Halts-bind (in_env M (Fabric.open_fabric M info)) (λ fabric. in_env M (in_fabric work fabric))
        (Halts-in_env M (Fabric.open_fabric M info) (open_fabric-Halts M info))
        (λ fabric.
          Halts-in_env M (in_fabric work fabric)
            (Halts-lent fabric (Fabric.drop M) work (Fabric.close M) hw (Fabric_close-Halts M))))
