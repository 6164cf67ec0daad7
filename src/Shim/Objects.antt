-- ===== src/Shim/Objects.antt =====
-- naive/fabric_shim.c: the objects behind the handles, and the memory that holds them. There is a table
-- for each type; a pointer to no live object is undefined behaviour, which is a panic here.
use rdma_prototype.Base.{
  ◌≡◌, ◌≢◌, arith, ℕ, ◌+◌, ◌-◌, ◌^◌, ◌%◌, ℤ, Bool, Option, none, some, ◌==◌, if◌then◌else◌,
}
use rdma_prototype.Outcome.{ok, panic}
use rdma_prototype.Ffi.{Ptr, null}
use rdma_prototype.Machine.{Exec, pure}
use rdma_prototype.Libfabric.{Libfabric, FiInfo, Errno, RawOpen, RawCall, CqError}

pub record Fabric : Type 0 where
  pub raw : Ptr
  pub children : ℕ

pub record Domain : Type 0 where
  pub raw : Ptr
  pub fabric : Ptr
  pub children : ℕ

pub record Eq : Type 0 where
  pub raw : Ptr
  pub fabric : Ptr
  pub users : ℕ

pub record Cq : Type 0 where
  pub raw : Ptr
  pub domain : Ptr
  pub pending : Ptr
  pub capacity : ℕ
  pub count : ℕ
  pub used : Bool
  pub attached : Bool
  pub retired : Bool

pub record Listener : Type 0 where
  pub raw : Ptr
  pub fabric : Ptr
  pub eq : Ptr
  pub ready : Bool

pub record Endpoint : Type 0 where
  pub raw : Ptr
  pub domain : Ptr
  pub eq : Ptr
  pub tx : Ptr
  pub rx : Ptr
  pub max_msg : ℕ
  pub ready : Bool
  pub closing : Bool

pub record Mr : Type 0 where
  pub raw : Ptr
  pub domain : Ptr
  pub buffer : Ptr
  pub capacity : ℕ
  pub pending : ℕ
  pub access : ℕ

pub record Op : Type 0 where
  pub id : ℕ
  pub direction : ℕ
  pub len : ℕ
  pub cq : Ptr
  pub mr : Ptr
  pub next : Ptr

abbrev pub Table : Type 0 → Type 0
Table T = Ptr → Option T

abbrev pub put : {T : Type 0} → Ptr → Option T → Table T → Table T
put p x table q = if q == p then x else table q

pub put-same : {T : Type 0} (p : Ptr) (x : Option T) (table : Table T) → put p x table p ≡ x
put-same p x table = ground arith

pub put-other :
    {T : Type 0} (p q : Ptr) (x : Option T) (table : Table T) → q ≢ p → put p x table q ≡ table q
put-other p q x table h = ground arith

-- `next` is the address of the next object. An info is kept as its `raw`, which every live info has.
pub record Store (L : Libfabric) : Type 0 where
  pub world : L.World
  pub next : Ptr
  pub infos : Table FiInfo
  pub fabrics : Table Fabric
  pub domains : Table Domain
  pub eqs : Table Eq
  pub cqs : Table Cq
  pub listeners : Table Listener
  pub endpoints : Table Endpoint
  pub mrs : Table Mr
  pub ops : Table Op

-- `x++` and `x--` on a `size_t`
abbrev pub up : ℕ → ℕ
up n = (n + 1) % 2 ^ 64

abbrev pub down : ℕ → ℕ
down n = (n + (2 ^ 64 - 1)) % 2 ^ 64

-- One table of the memory.
pub record Field (L : Libfabric) (T : Type 0) : Type 0 where
  pub get : Store L → Table T
  pub set : Table T → Store L → Store L

module _ (L : Libfabric) where
  abbrev pub infos : Field L FiInfo
  infos = record { get = λ s. s.infos; set = λ t s. record s { infos = t } }

  abbrev pub fabrics : Field L Fabric
  fabrics = record { get = λ s. s.fabrics; set = λ t s. record s { fabrics = t } }

  abbrev pub domains : Field L Domain
  domains = record { get = λ s. s.domains; set = λ t s. record s { domains = t } }

  abbrev pub eqs : Field L Eq
  eqs = record { get = λ s. s.eqs; set = λ t s. record s { eqs = t } }

  abbrev pub cqs : Field L Cq
  cqs = record { get = λ s. s.cqs; set = λ t s. record s { cqs = t } }

  abbrev pub listeners : Field L Listener
  listeners = record { get = λ s. s.listeners; set = λ t s. record s { listeners = t } }

  abbrev pub endpoints : Field L Endpoint
  endpoints = record { get = λ s. s.endpoints; set = λ t s. record s { endpoints = t } }

  abbrev pub mrs : Field L Mr
  mrs = record { get = λ s. s.mrs; set = λ t s. record s { mrs = t } }

  abbrev pub ops : Field L Op
  ops = record { get = λ s. s.ops; set = λ t s. record s { ops = t } }

  module _ {T : Type 0} (field : Field L T) where
    -- `*p`
    abbrev pub at : Ptr → Exec (Store L) T
    at p s = elim (field.get s p) [ none ↦ (panic, s) | some x ↦ (ok x, s) ]

    -- An assignment to `*p`.
    abbrev pub change : Ptr → (T → T) → Exec (Store L) Unit
    change p f s = elim (field.get s p) [
      | none ↦ (panic, s)
      | some x ↦ (ok tt, field.set (put p (some (f x)) (field.get s)) s)
    ]

    -- A new object at an address from `calloc`.
    abbrev pub insert : Ptr → T → Exec (Store L) Unit
    insert p x s = (ok tt, field.set (put p (some x) (field.get s)) s)

    -- `free(p)`
    abbrev pub free : Ptr → Exec (Store L) Unit
    free p s = (ok tt, field.set (put p none (field.get s)) s)

  -- The address of a new object, or NULL.
  abbrev pub calloc : Exec (Store L) Ptr
  calloc s =
      let (room, w) = L.has_memory s.world in
      if room
      then (ok s.next, record s { world = w; next = s.next + 1 })
      else (ok null, record s { world = w })

  abbrev pub do_raw : RawOpen → Exec (Store L) (ℤ × Ptr)
  do_raw c s = let (code, raw, w) = L.open_raw c s.world in (ok (code, raw), record s { world = w })

  abbrev pub do_call : RawCall → Exec (Store L) ℤ
  do_call c s = let (code, w) = L.call c s.world in (ok code, record s { world = w })

  abbrev pub errno : Errno → Exec (Store L) ℤ
  errno e = pure (L.code e)

  abbrev pub do_cq_read : Ptr → Exec (Store L) (ℤ × Ptr × ℕ)
  do_cq_read raw s =
      let (code, context, len, w) = L.cq_read raw s.world in
      (ok (code, context, len), record s { world = w })

  abbrev pub do_cq_readerr : Ptr → Exec (Store L) (ℤ × CqError)
  do_cq_readerr raw s =
      let (code, error, w) = L.cq_readerr raw s.world in (ok (code, error), record s { world = w })
