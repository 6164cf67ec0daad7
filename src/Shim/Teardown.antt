-- ===== src/Shim/Teardown.antt =====
-- naive/fabric_shim.c: the closing functions where libfabric closes everything that it is asked to, and
-- the objects that they find have given their references back.
use rdma_prototype.Base.{
  Bool-cases, ◌==◌, ◌≡◌, ◌≢◌, ◌∙◌, refl, ℕ, suc, ◌<◌, ◌^◌, pos, false, some, none, inl, inr, arith,
}
use rdma_prototype.Outcome.{ok}
use rdma_prototype.Ffi.{Ptr, null}
use rdma_prototype.Libfabric.{Libfabric, fi_close}
use rdma_prototype.Shim.Objects.{put-same, put-other, Store, Fabric, Domain, Eq, Cq, Op, put, down}
use rdma_prototype.Shim.Closing.{
  release_op, release_pending, mr_close, cq_close, eq_close, domain_close, op_free,
}
use rdma_prototype.Shim.Lending.{Retired, Drained, Registered, Frame}

-- `fi_close` answers 0.
abbrev pub Closes : Libfabric → Type 0
Closes L = (raw : Ptr) (w : L.World) → (L.call (fi_close raw) w).0 ≡ pos 0

-- A domain with `n` children, of a fabric that is there.
abbrev pub DomainAt : {L : Libfabric} → Ptr → ℕ → Store L → Type 0
DomainAt domain n s =
    (d : Domain) × (f : Fabric) × (s.domains domain ≡ some d)
    × (s.fabrics d.fabric ≡ some f)
    × (d.children ≡ n)

-- An event queue with `n` users, of a fabric that is there.
abbrev pub EqAt : {L : Libfabric} → Ptr → ℕ → Store L → Type 0
EqAt eq n s =
    (q : Eq) × (f : Fabric) × (s.eqs eq ≡ some q) × (s.fabrics q.fabric ≡ some f) × (q.users ≡ n)

module _ {L : Libfabric} (closes : Closes L) where
  release_held :
      (cq op : Ptr) (q : Cq) (o : Op) (s : Store L)
      → op ≢ null
      → s.cqs cq ≡ some q
      → s.ops op ≡ some o
      → q.pending ≡ op
      → q.count ≡ 1
      → o.mr ≡ null
      → o.next ≡ null
      → release_pending L (suc q.count) cq s ≡ (
        ok tt,
        record s {
          cqs = put cq (some (record q { pending = null })) s.cqs;
          ops = put op (some (record o { cq = null; mr = null; next = null })) s.ops;
        },
      )
  unfolding release_pending release_op
  release_held cq op q o s nop hq ho held one gone last = ground arith

  -- Once its pending operations are released.
  cq_close-released :
      (cq domain : Ptr) (q : Cq) (d : Domain) (s t : Store L)
      → cq ≢ null
      → s.cqs cq ≡ some q
      → q.attached ≡ false
      → q.domain ≡ domain
      → release_pending L
          (suc q.count)
          cq
          (record s { world = (L.call (fi_close q.raw) s.world).1 })
        ≡ (ok tt, t)
      → t.domains domain ≡ some d
      → cq_close L cq s ≡ (
        ok (pos 0),
        record t {
          domains = put domain (some (record d { children = down d.children })) t.domains;
          cqs = put cq none t.cqs;
        },
      )
  unfolding cq_close
  cq_close-released cq domain q d s t ncq hq loose dq released hd =
      ground (arith, closes q.raw s.world)

  pub cq_close-Retired :
      (domain cq mr op n : Ptr) (s : Store L)
      → cq ≢ null
      → op ≢ null
      → n < 2 ^ 63
      → Retired domain cq mr op s
      → DomainAt domain (suc n) s
      → (t : Store L) × (cq_close L cq s ≡ (ok (pos 0), t))
        × Drained domain mr op t
        × DomainAt domain n t
        × Frame cq mr op s t
        × (t.eqs ≡ s.eqs)
        × (t.fabrics ≡ s.fabrics)
  unfolding release_pending
  cq_close-Retired domain cq mr op n s ncq nop small
        (q, m, o, hq, hm, ho, dq, dm, loose, calm, inl (held, one, gone, last))
        (d, f, hd, hf, count) =
      let called : Store L = record s { world = (L.call (fi_close q.raw) s.world).1 } in
      let freed : Op = record o { cq = null; mr = null; next = null } in
      let t : Store L = record called {
        cqs = put cq (some (record q { pending = null })) s.cqs;
        ops = put op (some freed) s.ops;
      } in
      let released : release_pending L (suc q.count) cq called ≡ (ok tt, t) =
        release_held cq op q o called nop hq ho held one gone last in
      (
        record t {
          domains = put domain (some (record d { children = down d.children })) t.domains;
          cqs = put cq none t.cqs;
        },
        cq_close-released cq domain q d s t ncq hq loose dq released hd,
        (m, freed, hm, put-same op (some freed) s.ops, dm, calm, refl),
        (
          record d { children = down d.children },
          f,
          put-same domain (some (record d { children = down d.children })) s.domains,
          hf,
          omega (arith, count, small),
        ),
        (
          λ x e.
              put-other cq x none t.cqs e
              ∙ put-other cq x (some (record q { pending = null })) s.cqs e,
          λ x e. refl,
          λ x e. put-other op x (some freed) s.ops e,
        ),
        refl,
        refl,
      )
  cq_close-Retired domain cq mr op n s ncq nop small
        (q, m, o, hq, hm, ho, dq, dm, loose, calm, inr (empty, idle)) (d, f, hd, hf, count) =
      let t : Store L = record s { world = (L.call (fi_close q.raw) s.world).1 } in
      let released : release_pending L (suc q.count) cq t ≡ (ok tt, t) = ground arith in
      (
        record t {
          domains = put domain (some (record d { children = down d.children })) t.domains;
          cqs = put cq none t.cqs;
        },
        cq_close-released cq domain q d s t ncq hq loose dq released hd,
        (m, o, hm, ho, dm, calm, idle),
        (
          record d { children = down d.children },
          f,
          put-same domain (some (record d { children = down d.children })) s.domains,
          hf,
          omega (arith, count, small),
        ),
        (λ x e. put-other cq x none t.cqs e, λ x e. refl, λ x e. refl),
        refl,
        refl,
      )

  pub op_free-Drained :
      (domain cq mr op : Ptr) (s : Store L)
      → op ≢ null
      → Drained domain mr op s
      → (t : Store L) × (op_free L op s ≡ (ok (pos 0), t))
        × Registered domain mr t
        × Frame cq mr op s t
        × (t.eqs ≡ s.eqs)
        × (t.fabrics ≡ s.fabrics)
        × (t.domains ≡ s.domains)
  unfolding op_free
  op_free-Drained domain cq mr op s nop (m, o, hm, ho, dm, calm, idle) = (
    record s { ops = put op none s.ops },
    ground arith,
    (m, hm, dm, calm),
    (λ x e. refl, λ x e. refl, λ x e. ground arith),
    refl,
    refl,
    refl,
  )

  pub mr_close-Registered :
      (domain cq mr op n : Ptr) (s : Store L)
      → mr ≢ null
      → n < 2 ^ 63
      → Registered domain mr s
      → DomainAt domain (suc n) s
      → (t : Store L) × (mr_close L mr s ≡ (ok (pos 0), t))
        × DomainAt domain n t
        × Frame cq mr op s t
        × (t.eqs ≡ s.eqs)
        × (t.fabrics ≡ s.fabrics)
  unfolding mr_close
  mr_close-Registered domain cq mr op n s nmr small (m, hm, dm, calm) (d, f, hd, hf, count) =
      let zero_code = closes m.raw s.world in
      (
        record s {
          world = (L.call (fi_close m.raw) s.world).1;
          mrs = put mr none s.mrs;
          domains = put domain (some (record d { children = n })) s.domains;
        },
        ground arith,
        (record d { children = n }, f, ground arith, hf, refl),
        (λ x e. refl, λ x e. ground arith, λ x e. refl),
        refl,
        refl,
      )

  pub eq_close-EqAt :
      (domain eq n : Ptr) (s : Store L)
      → eq ≢ null
      → EqAt eq 0 s
      → DomainAt domain n s
      → (t : Store L) × (eq_close L eq s ≡ (ok (pos 0), t)) × DomainAt domain n t
  unfolding eq_close
  eq_close-EqAt domain eq n s neq (q, g, hq, hg, idle) (d, f, hd, hf, count) = (
    record s {
      world = (L.call (fi_close q.raw) s.world).1;
      fabrics = put q.fabric (some (record g { children = down g.children })) s.fabrics;
      eqs = put eq none s.eqs;
    },
    ground (arith, closes q.raw s.world),
    elim (Bool-cases (d.fabric == q.fabric)) [
      | inl same ↦ (d, record g { children = down g.children }, hd, ground arith, count)
      | inr other ↦ (d, f, hd, ground arith, count)
    ],
  )

  pub domain_close-DomainAt :
      (domain : Ptr) (s : Store L)
      → domain ≢ null
      → DomainAt domain 0 s
      → (t : Store L) × (domain_close L domain s ≡ (ok (pos 0), t)) × (t.domains domain ≡ none)
  unfolding domain_close
  domain_close-DomainAt domain s nd (d, f, hd, hf, count) = (
    record s {
      world = (L.call (fi_close d.raw) s.world).1;
      fabrics = put d.fabric (some (record f { children = down f.children })) s.fabrics;
      domains = put domain none s.domains;
    },
    ground (arith, closes d.raw s.world),
    ground arith,
  )
