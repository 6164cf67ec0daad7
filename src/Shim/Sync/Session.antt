-- ===== src/Shim/Sync/Session.antt =====
-- A connection of src/transport.rs on naive/fabric_shim.c from `initialize` to `close`.
use rdma_prototype.Base.{◌≡◌, ℕ, zero, suc, ◌+◌, List, [], ◌∷◌, none, inl, inr, Bool-cases, leb}
use rdma_prototype.Outcome.{Outcome, ok, err, panic, unfinished, Error}
use rdma_prototype.Machine.{
  Machine, At, Exec, pure, resume, attempt, ◌>>◌, in_env, do_now, do_sleep,
}
use rdma_prototype.Machine.Logic.{Leaves, Leaves-bind, Leaves-map, Concludes}
use rdma_prototype.Machine.Behaviour.{Behaves}
use rdma_prototype.Libfabric.{Libfabric, FiInfo}
use rdma_prototype.Transport.Info.{Info}
use rdma_prototype.Transport.Listener.{millisecond}
use rdma_prototype.Transport.Connection.{Connection, send, post_recv, poll}
use rdma_prototype.Transport.Connection.Setup as Setup
use rdma_prototype.Transport.Connection.Close as Close
use rdma_prototype.Shim.Backing.{Backed, memory}
use rdma_prototype.Shim.Teardown.{Closes}
use rdma_prototype.Shim.Setup.Opened.{Failing}
use rdma_prototype.Shim.Setup.Stages.{Ready}
use rdma_prototype.Shim.Sync.Working.{Negative, Works, send-Stays, post_recv-Stays}
use rdma_prototype.Shim.Sync.Observing.{Expected, poll-Watches, negative_nonzero}
use rdma_prototype.Shim.Setup.Initial.{open_resources-Works}
use rdma_prototype.Shim.Composition.{close-Wired}

-- A method that an application calls on its connection.
pub data Act : Type 0 where
  sends : List ℕ → Act
  receives polls : Act

module _ (M : Machine) where
  -- The call, whatever its result is.
  abbrev pub perform_one : Act → Exec (At M Connection) Unit
  perform_one (sends text) = do attempt (send M text); pure tt
  perform_one receives = do attempt (post_recv M); pure tt
  perform_one polls = do attempt (poll M); pure tt

  abbrev pub perform : List Act → Exec (At M Connection) Unit
  perform [] = pure tt
  perform (act ∷ acts) = perform_one act >> perform acts

module _ {M : Machine} {L : Libfabric} (backed : Backed M L) (negative : Negative L) where
  abbrev Anything : Error → Type 0
  Anything e = Unit

  -- The state that a call leaves.
  kept :
      {A : Type 0} (F : Error → Type 0) (r : Outcome A) (t : At M Connection)
      → Behaves F (Works backed) (λ _ u. Works backed u) (r, t)
      → Works backed t
  kept F (ok a) t h = h
  kept F (err e) t h = h.1
  kept F panic t h = absurd h
  kept F unfinished t h = h

  sent : (text : List ℕ) (s : At M Connection) → Works backed s → Works backed (send M text s).1
  sent text s h =
      kept Anything _ _ (send-Stays backed negative Anything (λ _ _ _. tt) (λ _. tt) text s h)

  posted : (s : At M Connection) → Works backed s → Works backed (post_recv M s).1
  posted s h =
      kept Anything _ _ (post_recv-Stays backed negative Anything (λ _ _ _. tt) (λ _. tt) s h)

  polled : (s : At M Connection) → Works backed s → Works backed (poll M s).1
  polled s h = kept Expected _ _ (poll-Watches backed negative s h)

  then_Works :
      {A : Type 0} (m : Exec (At M Connection) A) (n : Exec (At M Connection) Unit)
      (s : At M Connection)
      → Works backed (m s).1
      → ((u : At M Connection) → Works backed u → Works backed (n u).1)
      → Works backed ((m >> n) s).1
  then_Works {A = A} m n s h k = go (m s).0 (m s).1 h
    where
      go :
          (r : Outcome A) (t : At M Connection)
          → Works backed t
          → Works backed (resume r (λ _. n) t).1
      go (ok a) t h = k t h
      go (err e) t h = h
      go panic t h = h
      go unfinished t h = h

  perform_one-Works :
      (act : Act) (s : At M Connection) → Works backed s → Works backed (perform_one M act s).1
  perform_one-Works (sends text) s h =
      then_Works (attempt (send M text)) (pure tt) s (sent text s h) (λ u k. k)
  perform_one-Works receives s h =
      then_Works (attempt (post_recv M)) (pure tt) s (posted s h) (λ u k. k)
  perform_one-Works polls s h = then_Works (attempt (poll M)) (pure tt) s (polled s h) (λ u k. k)

  pub perform-Works :
      (acts : List Act) (s : At M Connection) → Works backed s → Works backed (perform M acts s).1
  perform-Works [] s h = h
  perform-Works (act ∷ acts) s h =
      then_Works (perform_one M act) (perform M acts) s (perform_one-Works act s h)
        (perform-Works acts)

  -- The loop of `initialize` that posts the first receive.
  abbrev Set : {A : Type 0} → Outcome A × At M Connection → Type 0
  Set r = Leaves (λ _ u. Works backed u) (λ _. Unit) r

  if_ended : {A : Type 0} (r : Outcome A) (t : At M Connection) → Works backed t → Set (r, t)
  if_ended (ok a) t h = h
  if_ended (err e) t h = tt
  if_ended panic t h = tt
  if_ended unfinished t h = tt

  post_until-Set :
      (fuel deadline : ℕ) (s : At M Connection)
      → Works backed s
      → Set (Setup.post_until M fuel deadline s)
  unfolding Setup.post_until
  post_until-Set zero deadline s h = tt
  post_until-Set (suc fuel) deadline s h =
      Leaves-bind _ (λ _ u. Works backed u) (λ _. Unit) (post_recv M) _ s
        (if_ended _ _ (posted s h))
        λ done u k.
          let later : At M Connection = (in_env M (do_now M) u).1 in
          let still : Works backed later = (rw (backed.now u.env.world) k.0, k.1) in
          elim (Bool-cases done) [
            | inl ready ↦ rw ready k
            | inr again ↦ rw again (elim (Bool-cases (leb deadline (M.now u.env.world).0)) [
              | inl late ↦ rw late tt
              | inr early ↦ rw early (
                  Leaves-bind _ (λ _ u. Works backed u) (λ _. Unit) (poll M) _ later
                    (if_ended _ _ (polled later still))
                    λ _ v m.
                      post_until-Set fuel deadline (in_env M (do_sleep M millisecond) v).1
                        (rw (backed.sleep millisecond v.env.world) m.0, m.1))
            ])
          ]

  concluded :
      {A : Type 0} (r : Outcome A) (t : At M Connection)
      → Concludes (λ _ u. Works backed u) (r, t)
      → Set (r, t)
  concluded (ok a) t h = h
  concluded (err e) t h = tt
  concluded panic t h = tt
  concluded unfinished t h = tt

  codes_fail : Failing L
  codes_fail e = negative_nonzero (L.code e) (negative e)

  initialize-Set :
      (fuel : ℕ) (info : Info) (i : FiInfo) (timeout : ℕ) (s : At M Connection)
      → Ready info.raw i s.self (memory backed s)
      → Set (Setup.initialize M fuel info timeout s)
  unfolding Setup.initialize
  initialize-Set fuel info i timeout s ready =
      Leaves-bind _ (λ _ u. Works backed u) (λ _. Unit) (Setup.open_resources M info) _ s
        (concluded _ _ (open_resources-Works backed codes_fail info i s ready))
        λ _ u k.
          post_until-Set fuel ((M.now u.env.world).0 + timeout) (in_env M (do_now M) u).1
            (rw (backed.now u.env.world) k.0, k.1)

  -- A connection that `close` closes.
  abbrev pub Closing : At M Connection → Type 0
  Closing s =
      ((Close.close M s).0 ≡ ok tt)
      × ((memory backed (Close.close M s).1).domains s.self.domain ≡ none)

  -- From a fabric and an info that are there and a connection whose slots have their buffers: if
  -- `initialize` succeeds, then after any calls of `send`, `post_recv` and `poll`, whatever their
  -- results were, `close` succeeds and the shim's domain object is freed. The machine's foreign calls
  -- are the shim's, and libfabric's error codes are negative and its `fi_close` answers 0.
  pub initialize-Closing :
      (closes : Closes L) (fuel : ℕ) (info : Info) (i : FiInfo) (timeout : ℕ) (acts : List Act)
      (s : At M Connection)
      → Ready info.raw i s.self (memory backed s)
      → Leaves
          (λ _ u. Closing (perform M acts u).1)
          (λ _. Unit)
          (Setup.initialize M fuel info timeout s)
  initialize-Closing closes fuel info i timeout acts s ready =
      Leaves-map (λ _ u. Works backed u) _ (λ _. Unit) (Setup.initialize M fuel info timeout s).0
        (Setup.initialize M fuel info timeout s).1 (initialize-Set fuel info i timeout s ready)
        (λ _ u h.
          let after = (perform M acts u).1 in
          let works = perform-Works acts u h in
          close-Wired backed closes after works.0.names works.0.wired)
