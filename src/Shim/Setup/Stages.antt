-- ===== src/Shim/Setup/Stages.antt =====
-- `initialize` of src/transport.rs on naive/fabric_shim.c: what each of its opens finds.
use rdma_prototype.Base.{ℕ, ◌<◌, ◌≡◌, ◌≢◌, some, arith}
use rdma_prototype.Ffi.{Ptr, null}
use rdma_prototype.Libfabric.{Libfabric, FiInfo}
use rdma_prototype.Transport.Slot.{Slot, Bytes}
use rdma_prototype.Transport.Connection.{Connection}
use rdma_prototype.Shim.Objects.{
  Table, Store, Fabric, Domain, Eq, Cq, Endpoint, Mr, Op, put, put-other,
}

-- An object that is there, as an opening function has made it.
abbrev pub DomainIn : (fabric domain n : ℕ) → Table Domain → Type 0
DomainIn fabric domain n domains =
    (d : Domain) × (domains domain ≡ some d) × (d.fabric ≡ fabric) × (d.children ≡ n)

abbrev pub EqIn : (fabric eq n : ℕ) → Table Eq → Type 0
EqIn fabric eq n eqs = (q : Eq) × (eqs eq ≡ some q) × (q.fabric ≡ fabric) × (q.users ≡ n)

abbrev pub QueueIn : (domain cq : Ptr) → Table Cq → Type 0
QueueIn domain cq cqs =
    (q : Cq) × (cqs cq ≡ some q) × (q.domain ≡ domain) × (q.pending ≡ null) × (q.count ≡ 0)

abbrev pub MrIn : (domain mr : Ptr) → Table Mr → Type 0
MrIn domain mr mrs = (m : Mr) × (mrs mr ≡ some m) × (m.domain ≡ domain) × (m.pending ≡ 0)

abbrev pub OpIn : (id op : ℕ) → Table Op → Type 0
OpIn id op ops = (o : Op) × (ops op ≡ some o) × (o.id ≡ id) × (o.cq ≡ null) × (o.mr ≡ null)

abbrev pub EndpointIn : Connection → Table Endpoint → Type 0
EndpointIn c endpoints =
    (e : Endpoint) × (endpoints c.ep ≡ some e)
    × (e.tx ≡ c.tx_cq)
    × (e.rx ≡ c.rx_cq)
    × (e.eq ≡ c.eq)
    × (e.domain ≡ c.domain)

-- A handle that is not null, of an object that was made before the next one.
abbrev pub Named : {L : Libfabric} → Ptr → Store L → Type 0
Named p s = (p ≢ null) × (p < s.next)

-- The parents that the caller gives, and the buffers of the slots.
abbrev pub Ready : {L : Libfabric} → (info : Ptr) → FiInfo → Connection → Store L → Type 0
Ready info i c s =
    (s.next ≢ null)
    × (c.fabric.raw ≢ null)
    × (info ≢ null)
    × ((f : Fabric) × (s.fabrics c.fabric.raw ≡ some f))
    × (s.infos info ≡ some i)
    × ((b : Bytes) × (c.tx.bytes ≡ some b))
    × ((b : Bytes) × (c.rx.bytes ≡ some b))

abbrev pub HasDomain : {L : Libfabric} → ℕ → Connection → Store L → Type 0
HasDomain n c s = (c.domain ≢ null) × DomainIn c.fabric.raw c.domain n s.domains

abbrev pub HasEq : {L : Libfabric} → ℕ → Connection → Store L → Type 0
HasEq n c s = (c.eq ≢ null) × EqIn c.fabric.raw c.eq n s.eqs

abbrev pub HasQueue : {L : Libfabric} → Connection → Ptr → Store L → Type 0
HasQueue c cq s = Named cq s × QueueIn c.domain cq s.cqs

abbrev pub HasEndpoint : {L : Libfabric} → Connection → Store L → Type 0
HasEndpoint c s = (c.ep ≢ null) × EndpointIn c s.endpoints

abbrev pub HasMr : {L : Libfabric} → Connection → Slot → Store L → Type 0
HasMr c slot s = Named slot.mr s × MrIn c.domain slot.mr s.mrs

abbrev pub HasOp : {L : Libfabric} → ℕ → Slot → Store L → Type 0
HasOp id slot s = Named slot.op s × OpIn id slot.op s.ops

-- What holds after the opens of the endpoint.
abbrev pub HasConnection : {L : Libfabric} → ℕ → Connection → Store L → Type 0
HasConnection n c s =
    HasDomain n c s
    × HasEq 1 c s
    × HasQueue c c.tx_cq s
    × HasQueue c c.rx_cq s
    × (c.tx_cq ≢ c.rx_cq)
    × HasEndpoint c s

-- A newer object leaves an older one alone.
pub put-older :
    {T : Type 0} {L : Libfabric} (s : Store L) (p : Ptr) (x : T) (table : Table T)
    → p < s.next
    → put s.next (some x) table p ≡ table p
put-older s p x table h = put-other s.next p (some x) table (λ e. omega (arith, h, e))
