-- ===== src/Shim/Lending.antt =====
-- naive/fabric_shim.c: what one slot of a connection has in the shim's memory while it is torn down.
use rdma_prototype.Base.{◌≡◌, ◌∙◌, ◌≢◌, refl, true, false, some, ◌⊎◌, inl, inr, arith}
use rdma_prototype.Outcome.{Outcome, err, panic, unfinished, ok}
use rdma_prototype.Ffi.{Ptr, null}
use rdma_prototype.Libfabric.{Libfabric}
use rdma_prototype.Shim.Objects.{Store, Cq, Mr, Op, put}
use rdma_prototype.Shim.Closing.{retire_cq, release_buffers}

-- The operation is pending in its queue, alone.
abbrev pub Lent : (cq mr op : Ptr) → Cq → Mr → Op → Type 0
Lent cq mr op q m o =
    (q.pending ≡ op) × (q.count ≡ 1) × (m.pending ≡ 1) × (o.cq ≡ cq) × (o.mr ≡ mr) × (o.next ≡ null)

abbrev pub Idle : Cq → Mr → Op → Type 0
Idle q m o = (q.pending ≡ null) × (m.pending ≡ 0) × (o.cq ≡ null) × (o.mr ≡ null) × (q.count ≡ 0)

module _ {L : Libfabric} where
  retire-Idle :
      (cq mr op : Ptr) (q : Cq) (m : Mr) (o : Op) (s : Store L)
      → s.cqs cq ≡ some q
      → Idle q m o
      → retire_cq L cq s ≡ (
        ok tt,
        record s { cqs = put cq (some (record q { attached = false; retired = true })) s.cqs },
      )
  unfolding retire_cq release_buffers
  retire-Idle cq mr op q m o s hq h = ground arith

  retire-Lent :
      (cq mr op : Ptr) (q : Cq) (m : Mr) (o : Op) (s : Store L)
      → op ≢ null
      → mr ≢ null
      → s.cqs cq ≡ some q
      → s.mrs mr ≡ some m
      → s.ops op ≡ some o
      → Lent cq mr op q m o
      → retire_cq L cq s ≡ (
        ok tt,
        record s {
          cqs = put cq (some (record q { attached = false; retired = true })) s.cqs;
          mrs = put mr (some (record m { pending = 0 })) s.mrs;
          ops = put op (some (record o { mr = null })) s.ops;
        },
      )
  unfolding retire_cq release_buffers
  retire-Lent cq mr op q m o s nop nmr hq hm ho h = ground arith

-- What one slot has, while its queue is attached to the endpoint.
abbrev pub Attached : {L : Libfabric} → (domain cq mr op : Ptr) → Store L → Type 0
Attached domain cq mr op s =
    (q : Cq) × (m : Mr) × (o : Op) × (s.cqs cq ≡ some q)
    × (s.mrs mr ≡ some m)
    × (s.ops op ≡ some o)
    × (q.domain ≡ domain)
    × (m.domain ≡ domain)
    × (Lent cq mr op q m o ⊎ Idle q m o)

-- After the endpoint is closed: the operation is pinned by the queue, the registration is not.
abbrev pub Retired : {L : Libfabric} → (domain cq mr op : Ptr) → Store L → Type 0
Retired domain cq mr op s =
    (q : Cq) × (m : Mr) × (o : Op) × (s.cqs cq ≡ some q)
    × (s.mrs mr ≡ some m)
    × (s.ops op ≡ some o)
    × (q.domain ≡ domain)
    × (m.domain ≡ domain)
    × (q.attached ≡ false)
    × (m.pending ≡ 0)
    × (((q.pending ≡ op) × (q.count ≡ 1) × (o.mr ≡ null) × (o.next ≡ null))
        ⊎ ((q.pending ≡ null) × (o.cq ≡ null)))

-- After the queue is closed: nothing is pending.
abbrev pub Drained : {L : Libfabric} → (domain mr op : Ptr) → Store L → Type 0
Drained domain mr op s =
    (m : Mr) × (o : Op) × (s.mrs mr ≡ some m)
    × (s.ops op ≡ some o)
    × (m.domain ≡ domain)
    × (m.pending ≡ 0)
    × (o.cq ≡ null)

-- After the operation is freed.
abbrev pub Registered : {L : Libfabric} → (domain mr : Ptr) → Store L → Type 0
Registered domain mr s = (m : Mr) × (s.mrs mr ≡ some m) × (m.domain ≡ domain) × (m.pending ≡ 0)

-- The objects of all other slots stay.
abbrev pub Frame : {L : Libfabric} → (cq mr op : Ptr) → Store L → Store L → Type 0
Frame cq mr op s t =
    ((x : Ptr) → x ≢ cq → t.cqs x ≡ s.cqs x)
    × ((x : Ptr) → x ≢ mr → t.mrs x ≡ s.mrs x)
    × ((x : Ptr) → x ≢ op → t.ops x ≡ s.ops x)

-- And so do the objects that are of no slot.
abbrev pub Still : {L : Libfabric} → Store L → Store L → Type 0
Still s t =
    (t.fabrics ≡ s.fabrics)
    × (t.domains ≡ s.domains)
    × (t.eqs ≡ s.eqs)
    × (t.endpoints ≡ s.endpoints)

module _ {L : Libfabric} where
  pub retire-Attached :
      (domain cq mr op : Ptr) (s : Store L)
      → op ≢ null
      → mr ≢ null
      → Attached domain cq mr op s
      → (t : Store L) × (retire_cq L cq s ≡ (ok tt, t))
        × Retired domain cq mr op t
        × Frame cq mr op s t
        × Still s t
  retire-Attached domain cq mr op s nop nmr (q, m, o, hq, hm, ho, dq, dm, inl lent) = (
    record s {
      cqs = put cq (some (record q { attached = false; retired = true })) s.cqs;
      mrs = put mr (some (record m { pending = 0 })) s.mrs;
      ops = put op (some (record o { mr = null })) s.ops;
    },
    retire-Lent cq mr op q m o s nop nmr hq hm ho lent,
    (
      record q { attached = false; retired = true },
      record m { pending = 0 },
      record o { mr = null },
      ground arith,
      ground arith,
      ground arith,
      dq,
      dm,
      refl,
      refl,
      inl (lent.0, lent.1, refl, lent.5),
    ),
    (λ x n. ground arith, λ x n. ground arith, λ x n. ground arith),
    (refl, refl, refl, refl),
  )
  retire-Attached domain cq mr op s nop nmr (q, m, o, hq, hm, ho, dq, dm, inr idle) = (
    record s { cqs = put cq (some (record q { attached = false; retired = true })) s.cqs },
    retire-Idle cq mr op q m o s hq idle,
    (
      record q { attached = false; retired = true },
      m,
      o,
      ground arith,
      hm,
      ho,
      dq,
      dm,
      refl,
      idle.1,
      inr (idle.0, idle.2),
    ),
    (λ x n. ground arith, λ x n. refl, λ x n. refl),
    (refl, refl, refl, refl),
  )

  -- A slot is left alone by what changes another one.
  pub Attached-Frame :
      (domain cq mr op cq2 mr2 op2 : Ptr) (s t : Store L)
      → cq ≢ cq2
      → mr ≢ mr2
      → op ≢ op2
      → Frame cq2 mr2 op2 s t
      → Attached domain cq mr op s
      → Attached domain cq mr op t
  Attached-Frame domain cq mr op cq2 mr2 op2 s t nq nm np frame
        (q, m, o, hq, hm, ho, dq, dm, held) =
      (q, m, o, frame.0 cq nq ∙ hq, frame.1 mr nm ∙ hm, frame.2 op np ∙ ho, dq, dm, held)

  pub Retired-Frame :
      (domain cq mr op cq2 mr2 op2 : Ptr) (s t : Store L)
      → cq ≢ cq2
      → mr ≢ mr2
      → op ≢ op2
      → Frame cq2 mr2 op2 s t
      → Retired domain cq mr op s
      → Retired domain cq mr op t
  Retired-Frame domain cq mr op cq2 mr2 op2 s t nq nm np frame
        (q, m, o, hq, hm, ho, dq, dm, loose, calm, held) =
      (
        q,
        m,
        o,
        frame.0 cq nq ∙ hq,
        frame.1 mr nm ∙ hm,
        frame.2 op np ∙ ho,
        dq,
        dm,
        loose,
        calm,
        held,
      )

  pub Drained-Frame :
      (domain mr op cq2 mr2 op2 : Ptr) (s t : Store L)
      → mr ≢ mr2
      → op ≢ op2
      → Frame cq2 mr2 op2 s t
      → Drained domain mr op s
      → Drained domain mr op t
  Drained-Frame domain mr op cq2 mr2 op2 s t nm np frame (m, o, hm, ho, dm, calm, idle) =
      (m, o, frame.1 mr nm ∙ hm, frame.2 op np ∙ ho, dm, calm, idle)

-- What a call on a slot of a connection does: it answers, and leaves the slot in order.
abbrev pub Keeps :
    {L : Libfabric} {A : Type 0} → (domain cq mr op : Ptr) → Store L → Outcome A × Store L → Type 0
Keeps domain cq mr op s (ok code, t) = Attached domain cq mr op t × Frame cq mr op s t × Still s t
Keeps domain cq mr op s (err e, t) = ⊥
Keeps domain cq mr op s (panic, t) = ⊥
Keeps domain cq mr op s (unfinished, t) = ⊥
