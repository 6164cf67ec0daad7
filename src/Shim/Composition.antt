-- ===== src/Shim/Composition.antt =====
-- `Connection::close` of src/transport.rs on naive/fabric_shim.c.
use rdma_prototype.Base.{Bool, Bool-cases, inl, inr, ◌≡◌, refl, true, false, none, arith}
use rdma_prototype.Outcome.{Outcome, ok, err, panic, unfinished}
use rdma_prototype.Ffi as Ffi
use rdma_prototype.Ffi.{Ptr, null}
use rdma_prototype.Machine.{Machine, At}
use rdma_prototype.Machine.Logic.{Leaves, Leaves-bind}
use rdma_prototype.Libfabric.{Libfabric}
use rdma_prototype.Transport.Connection.{Connection}
use rdma_prototype.Transport.Connection.Close
use rdma_prototype.Shim.Teardown.{Closes}
use rdma_prototype.Shim.Endpoint.{shutdown-Wired, Distinct, Wired}
use rdma_prototype.Shim.Sync.Marks.{Distinct-marked, Wired-marked}
use rdma_prototype.Shim.Backing.{Backed, Serves}
use rdma_prototype.Shim.Steps.{from_ep-Leaves}

module _ {M : Machine} {L : Libfabric} (backed : Backed M L) (closes : Closes L) where
  shutdown_started-Wired :
      (c : Connection) (s : At M Connection)
      → s.self ≡ c
      → Distinct c
      → Wired c (backed.store s.env.world)
      → Leaves
          (λ _ u.
            (started : Bool) × (u.self ≡ record c { cm_started = started })
            × Wired c (backed.store u.env.world))
          (λ _. ⊥)
          (Close.shutdown_started M s)
  unfolding Close.shutdown_started
  shutdown_started-Wired c s here names wired =
      let alive : Ffi.is_null c.ep ≡ false = let live = names.ep in ground arith in
      let (code, t, h, after) = shutdown-Wired c (backed.store s.env.world) names.ep wired in
      let serves : Serves backed.store (M.status (Ffi.shutdown c.ep) s.env.world) (ok code, t) =
        rw h at (backed.status (Ffi.shutdown c.ep) s.env.world) in
      elim (Bool-cases c.cm_started) [
        | inl started ↦
            rw (here, started, alive)
              (
                false,
                refl,
                rw serves.1 (Wired-marked c.tx.pending c.rx.pending true c.closing c t after),
              )
        | inr idle ↦
            rw (here, idle)
              (
                false,
                refl,
                Wired-marked c.tx.pending c.rx.pending false c.closing c (backed.store s.env.world)
                    wired,
              )
      ]

  Leaves-ok :
      (Q : At M Connection → Type 0) (r : Outcome Unit) (t : At M Connection)
      → Leaves (λ _ u. Q u) (λ _. ⊥) (r, t)
      → (r ≡ ok tt) × Q t
  Leaves-ok Q (ok u) t h = (refl, h)
  Leaves-ok Q (err e) t h = absurd h
  Leaves-ok Q panic t h = absurd h
  Leaves-ok Q unfinished t h = absurd h

  close-Leaves :
      (s : At M Connection)
      → Distinct s.self
      → Wired s.self (backed.store s.env.world)
      → Leaves
          (λ _ u. (backed.store u.env.world).domains s.self.domain ≡ none)
          (λ _. ⊥)
          (Close.close M s)
  unfolding Close.close
  close-Leaves s names wired =
      let c : Connection = record s.self { closing = true } in
      let marked : At M Connection = record s { self = c } in
      Leaves-bind _ _ _ (Close.shutdown_started M) _ marked
        (shutdown_started-Wired c marked refl
          (Distinct-marked s.self.tx.pending s.self.rx.pending s.self.cm_started true s.self names)
          (Wired-marked s.self.tx.pending s.self.rx.pending s.self.cm_started true s.self
            (backed.store s.env.world) wired))
        (λ _ u h.
          from_ep-Leaves backed closes (record c { cm_started = h.0 })
            (Distinct-marked s.self.tx.pending s.self.rx.pending h.0 true s.self names) u h.1
            (Wired-marked c.tx.pending c.rx.pending h.0 true c (backed.store u.env.world) h.2))

  -- `Connection::close`, on a machine whose closing calls are the shim's, for a connection that is set
  -- up and whose slots each have at most their own operation in flight: if libfabric's `fi_close`
  -- always answers 0, `close` succeeds and the shim's domain object is freed.
  pub close-Wired :
      (s : At M Connection)
      → Distinct s.self
      → Wired s.self (backed.store s.env.world)
      → ((Close.close M s).0 ≡ ok tt)
        × ((backed.store (Close.close M s).1.env.world).domains s.self.domain ≡ none)
  close-Wired s names wired =
      Leaves-ok (λ u. (backed.store u.env.world).domains s.self.domain ≡ none) (Close.close M s).0
        (Close.close M s).1 (close-Leaves s names wired)
