-- ===== src/Transport/Spending.antt =====
-- Objects that work and are then closed in a scope, and an action of theirs that may run out of fuel.
use rdma_prototype.Machine.{Machine, At, Env, Exec, owning, attempt, throw, in_env, me, ◌>>=◌}
use rdma_prototype.Machine.Halting.{Halts, Halts-attempt, Halts-throw}
use rdma_prototype.Machine.Lasting.{
  Lasts, Lasts-Halts, Lasts-bind, Lasts-attempt, AtEnv, Lasts-in_env, Lasts-owning,
}
use rdma_prototype.Transport.Halting.{open_fabric-Halts, Fabric_close-Halts}
use rdma_prototype.Transport.Poll.{finish}
use rdma_prototype.Transport.Scopes.{in_fabric}
use rdma_prototype.Transport.Info
use rdma_prototype.Transport.Info.{Info}
use rdma_prototype.Transport.Fabric
use rdma_prototype.Transport.Fabric.{Fabric}

module _ (M : Machine) (U : Env M → Type 0) where
  -- The work of an object, then its close, then the first error of the two.
  finished-Lasts :
      {T : Type 0} (work close : Exec (At M T) Unit)
      → Lasts (AtEnv M U) work
      → Halts close
      → Lasts
          (AtEnv M U)
          (attempt work >>= λ result. attempt close >>= λ closed. throw (finish result closed))
  finished-Lasts {T} work close hw hc =
      Lasts-bind (AtEnv M U) (attempt work)
        (λ result. attempt close >>= λ closed. throw {S = At M T} (finish result closed))
        (Lasts-attempt (AtEnv M U) work hw)
        (λ result.
          Lasts-bind (AtEnv M U) (attempt close) (λ closed. throw (finish result closed))
            (Lasts-Halts (AtEnv M U) (attempt close) (Halts-attempt close hc))
            (λ closed.
              Lasts-Halts (AtEnv M U) (throw (finish result closed))
                (Halts-throw (finish result closed))))

  -- An object that works and is then closed, within its scope.
  pub Lasts-worked :
      {T : Type 0} (start : T) (drop : T → Env M → Env M) (work close : Exec (At M T) Unit)
      → ((t : T) (e : Env M) → U e → U (drop t e))
      → Lasts (AtEnv M U) work
      → Halts close
      → Lasts U (
          owning M start drop
            (attempt work >>= λ result. attempt close >>= λ closed. throw (finish result closed)))
  Lasts-worked {T} start drop work close kept hw hc =
      Lasts-owning M U start drop _ kept (finished-Lasts work close hw hc)

  -- The same, where the work is done in the environment.
  pub Lasts-lent :
      {T : Type 0} (start : T) (drop : T → Env M → Env M) (work : T → Exec (Env M) Unit)
      (close : Exec (At M T) Unit)
      → ((t : T) (e : Env M) → U e → U (drop t e))
      → ((t : T) → Lasts U (work t))
      → Halts close
      → Lasts U (
          owning M start drop (
            me M >>= λ t. attempt (in_env M (work t)) >>= λ result.
            attempt close >>= λ closed. throw (finish result closed)))
  Lasts-lent {T} start drop work close kept hw hc = Lasts-owning M U start drop _ kept (
      Lasts-bind (AtEnv M U) (me M)
        (λ t. attempt (in_env M (work t)) >>= λ result.
          attempt close >>= λ closed. throw {S = At M T} (finish result closed))
        (λ s. tt)
        (λ t. finished-Lasts (in_env M (work t)) close (Lasts-in_env M U (work t) (hw t)) hc))

  pub Lasts-in_info :
      (info : Info) (work : Fabric → Exec (Env M) Unit)
      → ((i : Info) (e : Env M) → U e → U (Info.drop M i e))
      → ((f : Fabric) (e : Env M) → U e → U (Fabric.drop M f e))
      → ((f : Fabric) → Lasts U (work f))
      → Lasts U (
          owning M info
            (Info.drop M)
            (in_env M (Fabric.open_fabric M info) >>= λ fabric. in_env M (in_fabric M work fabric)))
  Lasts-in_info info work info_kept kept hw = Lasts-owning M U info (Info.drop M) _ info_kept (
      Lasts-bind (AtEnv M U) (in_env M (Fabric.open_fabric M info))
        (λ fabric. in_env M (in_fabric M work fabric))
        (Lasts-in_env M U (Fabric.open_fabric M info)
          (Lasts-Halts U (Fabric.open_fabric M info) (open_fabric-Halts M info)))
        (λ fabric.
          Lasts-in_env M U (in_fabric M work fabric) (
            Lasts-lent fabric (Fabric.drop M) work (Fabric.close M) kept hw
              (Fabric_close-Halts M))))
