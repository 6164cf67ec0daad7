-- ===== src/Shim/Slots.antt =====
-- `Slot::close` of src/transport.rs on naive/fabric_shim.c.
use rdma_prototype.Base.{Option-cases, inl, inr, ◌≡◌, ◌≢◌, refl, suc, ◌<◌, ◌^◌, pos, false, none}
use rdma_prototype.Outcome.{ok}
use rdma_prototype.Ffi as Ffi
use rdma_prototype.Ffi.{Ptr, null}
use rdma_prototype.Machine.{Machine, At}
use rdma_prototype.Machine.Logic.{Leaves, Leaves-bind}
use rdma_prototype.Libfabric.{Libfabric}
use rdma_prototype.Transport.Slot as Slots
use rdma_prototype.Transport.Slot.{Slot, Bytes, drop_bytes}
use rdma_prototype.Shim.Objects.{Store}
use rdma_prototype.Shim.Closing as Closing
use rdma_prototype.Shim.Lending.{Drained, Registered, Frame}
use rdma_prototype.Shim.Teardown.{Closes, DomainAt, op_free-Drained, mr_close-Registered}
use rdma_prototype.Shim.Backing.{Backed, close_field-Leaves}

-- A slot without its resources.
abbrev pub cleared : Slot → Slot
cleared slot = record slot { op = null; mr = null; bytes = none; pending = false }

module _ {M : Machine} {L : Libfabric} (backed : Backed M L) (closes : Closes L)
    (domain cq mr op n : Ptr) (live_mr : mr ≢ null) (live_op : op ≢ null) (small : n < 2 ^ 63)
    -- what the slot does not touch
    (R : Store L → Type 0)
    (stable : (s t : Store L)
      → Frame cq mr op s t
      → t.eqs ≡ s.eqs
      → t.fabrics ≡ s.fabrics
      → R s
      → R t) where
  abbrev memory : At M Slot → Store L
  memory t = backed.store t.env.world

  abbrev Freed : Store L → Type 0
  Freed s = Registered domain mr s × DomainAt domain (suc n) s × R s

  abbrev pub Gone : Store L → Type 0
  Gone s = DomainAt domain n s × R s

  free_step :
      (s : Store L)
      → Drained domain mr op s × DomainAt domain (suc n) s × R s
      → (t : Store L) × (Closing.op_free L op s ≡ (ok (pos 0), t)) × Freed t
  free_step s (drained, (d, f, hd, hf, count), r) =
      let (t, h, registered, frame, he, hf2, hd2) =
        op_free-Drained closes domain cq mr op s live_op drained in
      (t, h, (registered, (d, f, rw hd2 hd, rw hf2 hf, count), stable s t frame he hf2 r))

  mr_step :
      (s : Store L) → Freed s → (t : Store L) × (Closing.mr_close L mr s ≡ (ok (pos 0), t)) × Gone t
  mr_step s (registered, parent, r) =
      let (t, h, left, frame, he, hf) =
        mr_close-Registered closes domain cq mr op n s live_mr small registered parent in
      (t, h, (left, stable s t frame he hf r))

  clear-Leaves :
      (slot : Slot) (s : At M Slot)
      → s.self ≡ slot
      → Gone (memory s)
      → Leaves
          (λ _ u. (u.self ≡ record slot { bytes = none; pending = false }) × Gone (memory u))
          (λ _. ⊥)
          (Slots.clear M s)
  unfolding Slots.clear drop_bytes
  clear-Leaves slot s here gone = elim (Option-cases s.self.bytes) [
    | inl empty ↦ rw empty (rw here refl, gone)
    | inr (b, full) ↦ rw full (rw here refl, rw (backed.release b.ptr s.env.world) gone)
  ]

  free_op-Leaves :
      (slot : Slot) (s : At M Slot)
      → s.self ≡ slot
      → slot.op ≡ op
      → Drained domain mr op (memory s) × DomainAt domain (suc n) (memory s) × R (memory s)
      → Leaves
          (λ _ u. (u.self ≡ record slot { op = null }) × Freed (memory u))
          (λ _. ⊥)
          (Slots.free_op M s)
  unfolding Slots.free_op
  free_op-Leaves slot s here field h =
      close_field-Leaves backed Freed (λ s. s.op) (λ p s. record s { op = p }) Ffi.op_free
        "shim_op_free" (λ p. Closing.op_free L p (memory s)) slot op s here field live_op
        (backed.status (Ffi.op_free op) s.env.world) (free_step (memory s) h)

  close_mr-Leaves :
      (slot : Slot) (s : At M Slot)
      → s.self ≡ slot
      → slot.mr ≡ mr
      → Freed (memory s)
      → Leaves
          (λ _ u. (u.self ≡ record slot { mr = null }) × Gone (memory u))
          (λ _. ⊥)
          (Slots.close_mr M s)
  unfolding Slots.close_mr
  close_mr-Leaves slot s here field h =
      close_field-Leaves backed Gone (λ s. s.mr) (λ p s. record s { mr = p }) Ffi.mr_close
        "shim_mr_close" (λ p. Closing.mr_close L p (memory s)) slot mr s here field live_mr
        (backed.status (Ffi.mr_close mr) s.env.world) (mr_step (memory s) h)

  pub Slot_close-Leaves :
      (slot : Slot) (s : At M Slot)
      → s.self ≡ slot
      → slot.mr ≡ mr
      → slot.op ≡ op
      → Drained domain mr op (memory s) × DomainAt domain (suc n) (memory s) × R (memory s)
      → Leaves (λ _ u. (u.self ≡ cleared slot) × Gone (memory u)) (λ _. ⊥) (Slots.close M s)
  unfolding Slots.close
  Slot_close-Leaves slot s here hmr hop h =
      Leaves-bind (λ _ u. (u.self ≡ record slot { op = null }) × Freed (memory u)) _ (λ _. ⊥)
        (Slots.free_op M) _ s (free_op-Leaves slot s here hop h)
        (λ _ u k.
          Leaves-bind (λ _ v. (v.self ≡ record slot { op = null; mr = null }) × Gone (memory v)) _
            (λ _. ⊥) (Slots.close_mr M) _ u
            (close_mr-Leaves (record slot { op = null }) u k.0 hmr k.1)
            (λ _ v k. clear-Leaves (record slot { op = null; mr = null }) v k.0 k.1))
