-- ===== src/Shim/Setup/Opened.antt =====
-- naive/fabric_shim.c: what the opening functions leave in the shim's memory when they answer 0, for
-- parents that are there.
use rdma_prototype.Base.{ℕ, ◌+◌, ℤ, true, false, some, ◌≡◌, ◌≢◌, is_zero, arith}
use rdma_prototype.Outcome.{Outcome, ok, err, panic, unfinished}
use rdma_prototype.Ffi.{Ptr, null}
use rdma_prototype.Libfabric.{
  Libfabric, FiInfo, Errno, enomem, fi_domain, fi_eq_open, fi_cq_open, fi_mr_reg, einval,
}
use rdma_prototype.Shim.Objects.{Store, Fabric, Domain, Cq, put, up}
use rdma_prototype.Shim.Opening.{domain_open, eq_open, cq_open, mr_register, op_create}

-- The error codes of libfabric are not 0.
abbrev pub Failing : Libfabric → Type 0
Failing L = (e : Errno) → is_zero (L.code e) ≡ false

-- An open that returns, without undefined behaviour; if it answers 0, the handle and the memory have the
-- property.
abbrev pub Answers :
    {L : Libfabric} → (Ptr → Store L → Type 0) → Outcome (ℤ × Ptr) × Store L → Type 0
Answers P (ok (code, p), t) = is_zero code ≡ true → P p t
Answers P (err e, t) = ⊥
Answers P (panic, t) = ⊥
Answers P (unfinished, t) = ⊥

-- A completion queue as `shim_cq_open` makes it.
abbrev pub new_queue : (raw domain capacity : ℕ) → Cq
new_queue raw domain capacity = record {
  raw = raw;
  domain = domain;
  pending = null;
  capacity = capacity;
  count = 0;
  used = false;
  attached = false;
  retired = false;
}

module _ {L : Libfabric} (fails : Failing L) (P : Ptr → Store L → Type 0) where
  pub domain_open-Answers :
      (fabric info : Ptr) (f : Fabric) (i : FiInfo) (s : Store L)
      → fabric ≢ null
      → info ≢ null
      → s.next ≢ null
      → s.fabrics fabric ≡ some f
      → s.infos info ≡ some i
      → ((raw : Ptr) (w : L.World)
          → P s.next (record s {
            world = w;
            next = s.next + 1;
            domains =
                put s.next (some (record { raw = raw; fabric = fabric; children = 0 })) s.domains;
            fabrics = put fabric (some (record f { children = up f.children })) s.fabrics;
          }))
      → Answers P (domain_open L fabric info s)
  unfolding domain_open
  domain_open-Answers fabric info f i s nf ni nn hf hi k =
      let made = L.open_raw (fi_domain f.raw i.raw) (L.has_memory s.world).1 in
      ground (arith, fails enomem, k made.1 made.2)

  pub eq_open-Answers :
      (fabric : Ptr) (f : Fabric) (s : Store L)
      → fabric ≢ null
      → s.next ≢ null
      → s.fabrics fabric ≡ some f
      → ((raw : Ptr) (w : L.World)
          → P s.next (record s {
            world = w;
            next = s.next + 1;
            eqs = put s.next (some (record { raw = raw; fabric = fabric; users = 0 })) s.eqs;
            fabrics = put fabric (some (record f { children = up f.children })) s.fabrics;
          }))
      → Answers P (eq_open L fabric s)
  unfolding eq_open
  eq_open-Answers fabric f s nf nn hf k =
      let made = L.open_raw (fi_eq_open f.raw) (L.has_memory s.world).1 in
      ground (arith, fails enomem, k made.1 made.2)

  pub cq_open-Answers :
      (domain capacity : ℕ) (d : Domain) (s : Store L)
      → domain ≢ null
      → s.next ≢ null
      → s.domains domain ≡ some d
      → ((raw : Ptr) (w : L.World)
          → P s.next (record s {
            world = w;
            next = s.next + 1;
            cqs = put s.next (some (new_queue raw domain capacity)) s.cqs;
            domains = put domain (some (record d { children = up d.children })) s.domains;
          }))
      → Answers P (cq_open L domain capacity s)
  unfolding cq_open
  cq_open-Answers domain capacity d s nd nn hd k =
      let made = L.open_raw (fi_cq_open d.raw capacity) (L.has_memory s.world).1 in
      ground (arith, fails enomem, fails einval, k made.1 made.2)

  pub mr_register-Answers :
      (domain buf capacity access : ℕ) (d : Domain) (s : Store L)
      → domain ≢ null
      → s.next ≢ null
      → s.domains domain ≡ some d
      → ((raw : Ptr) (w : L.World)
          → P s.next (record s {
            world = w;
            next = s.next + 1;
            mrs =
                put s.next
                  (some (record {
                    raw = raw;
                    domain = domain;
                    buffer = buf;
                    capacity = capacity;
                    pending = 0;
                    access = access;
                  }))
                  s.mrs;
            domains = put domain (some (record d { children = up d.children })) s.domains;
          }))
      → Answers P (mr_register L domain buf capacity access s)
  unfolding mr_register
  mr_register-Answers domain buf capacity access d s nd nn hd k =
      let made = L.open_raw (fi_mr_reg d.raw buf capacity access) (L.has_memory s.world).1 in
      ground (arith, fails enomem, fails einval, k made.1 made.2)

  pub op_create-Answers :
      (id : ℕ) (s : Store L)
      → s.next ≢ null
      → ((w : L.World)
          → P s.next (record s {
            world = w;
            next = s.next + 1;
            ops =
                put s.next
                  (some
                    (record { id = id; direction = 0; len = 0; cq = null; mr = null; next = null }))
                  s.ops;
          }))
      → Answers P (op_create L id s)
  unfolding op_create
  op_create-Answers id s nn k = ground (arith, fails enomem, k (L.has_memory s.world).1)
