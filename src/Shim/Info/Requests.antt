-- ===== src/Shim/Info/Requests.antt =====
-- naive/fabric_shim.c: who owns the `fi_info` of a connection event.
use rdma_prototype.Base.{◌+◌, ℤ, pos, Option, some, none, ◌≡◌, ◌≢◌, refl, ◌⊎◌, inl, inr, arith}
use rdma_prototype.Outcome.{Outcome, ok, err, panic, unfinished}
use rdma_prototype.Ffi.{Ptr, null, ConnectEvent, event_connreq}
use rdma_prototype.Libfabric.{
  Libfabric, FiInfo, EqEvent, fi_connreq, fi_connected, fi_shutdown_event, fi_other_event,
}
use rdma_prototype.Shim.Objects.{Store, Eq, put}
use rdma_prototype.Shim.Listening.{eq_poll, received_event, failed_event, source_of, no_event}

-- What a poll leaves of infos: a connection request comes with a new info that is the caller's, and
-- with no other event does an info come.
abbrev pub Owns :
    {L : Libfabric} → (fresh : Ptr) → Store L → Outcome (ℤ × ConnectEvent) × Store L → Type 0
Owns {L = L} fresh s (ok (code, event), t) =
    ((event.info ≡ null) × (event.event_type ≢ event_connreq) × (t.infos ≡ s.infos))
    ⊎ ((code ≡ pos 1)
        × (event.event_type ≡ event_connreq)
        × (event.info ≡ fresh)
        × ((info : FiInfo) × (t.infos ≡ put fresh (some info) s.infos)))
Owns fresh s (err e, t) = ⊥
Owns fresh s (panic, t) = ⊥
Owns fresh s (unfinished, t) = ⊥

module _ {L : Libfabric} where
  received_event-Owns :
      (fresh : Ptr) (event : EqEvent) (info : Option FiInfo) (source : Ptr) (s : Store L)
      → Owns fresh s (received_event L fresh event info (record no_event { source = source }) s)
  unfolding received_event
  received_event-Owns fresh fi_connreq none source s = inl (refl, (λ h. omega (arith, h)), refl)
  received_event-Owns fresh fi_connreq (some info) source s = inr (refl, refl, refl, (info, refl))
  received_event-Owns fresh fi_connected none source s = inl (refl, (λ h. omega (arith, h)), refl)
  received_event-Owns fresh fi_connected (some info) source s =
      inl (refl, (λ h. omega (arith, h)), refl)
  received_event-Owns fresh fi_shutdown_event none source s =
      inl (refl, (λ h. omega (arith, h)), refl)
  received_event-Owns fresh fi_shutdown_event (some info) source s =
      inl (refl, (λ h. omega (arith, h)), refl)
  received_event-Owns fresh fi_other_event none source s = inl (refl, (λ h. omega (arith, h)), refl)
  received_event-Owns fresh fi_other_event (some info) source s =
      inl (refl, (λ h. omega (arith, h)), refl)

  failed_event-Owns : (fresh raw : Ptr) (s : Store L) → Owns fresh s (failed_event L raw s)
  unfolding failed_event
  failed_event-Owns fresh raw s = ground arith

  -- `shim_eq_poll` of an event queue that is there returns without undefined behaviour, whatever
  -- libfabric answers; either its event is not a connection request, it has no info, and the infos
  -- are what they were, or it answers 1 with a connection request and a new info for it, which is the
  -- only one that was added.
  pub eq_poll-Owns :
      (eq : Ptr) (q : Eq) (s : Store L) → s.eqs eq ≡ some q → Owns s.next s (eq_poll L eq s)
  unfolding eq_poll
  eq_poll-Owns eq q s hq =
      let opened : Store L = record s { world = (L.has_memory s.world).1; next = s.next + 1 } in
      let read = L.eq_read q.raw (L.has_memory s.world).1 in
      let polled : Store L = record opened { world = read.3 } in
      ground (
        arith,
        failed_event-Owns s.next q.raw polled,
        received_event-Owns s.next read.1 read.2.info (source_of read.2.context) polled,
      )
