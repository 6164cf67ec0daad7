-- ===== src/Shim/Completing.antt =====
-- naive/fabric_shim.c: `shim_cq_poll` on the objects of one slot.
use rdma_prototype.Base.{
  ◌≡◌, ◌≢◌, ◌∙◌, refl, ℤ, pos, true, false, some, ◌⊎◌, inl, inr, arith, Bool-cases, ◌==◌, ◌||◌,
  is_zero, is_negative,
}
use rdma_prototype.Outcome.{Outcome, ok, err, panic, unfinished}
use rdma_prototype.Ffi.{Ptr, null, Completion}
use rdma_prototype.Libfabric.{Libfabric, Errno, eio, eavail, eagain, eopbadstate}
use rdma_prototype.Shim.Objects.{Store, Cq, Mr, Op, put, put-same, put-other}
use rdma_prototype.Shim.Closing.{release_op}
use rdma_prototype.Shim.Polling.{find, unlink, reported, report, cq_poll, same_code}
use rdma_prototype.Shim.Lending.{Attached, Lent, Idle, Keeps}

-- The memory once the operation is reported.
abbrev pub completed : {L : Libfabric} → (cq mr op : Ptr) → Cq → Mr → Op → Store L → Store L
completed cq mr op q m o s = record s {
  cqs =
      put cq (some (record q { pending = null; count = 0 }))
        (put cq (some (record q { pending = null })) s.cqs);
  mrs = put mr (some (record m { pending = 0 })) s.mrs;
  ops = put op (some (record o { mr = null; cq = null; next = null })) s.ops;
}

module _ {L : Libfabric} (cq mr op context : Ptr) (q : Cq) (m : Mr) (o : Op) (out : Completion)
    (s : Store L) (hq : s.cqs cq ≡ some q) (hm : s.mrs mr ≡ some m) (ho : s.ops op ≡ some o) where
  -- No operation has this context.
  reported-idle :
      q.pending ≡ null → q.count ≡ 0 → reported L cq context out s ≡ (ok (L.code eio, out), s)
  unfolding reported find
  reported-idle h k = ground arith

  reported-miss :
      op ≢ null
      → (op == context) ≡ false
      → Lent cq mr op q m o
      → reported L cq context out s ≡ (ok (L.code eio, out), s)
  unfolding reported find
  reported-miss nop other held = ground arith

  -- The one operation that is pending has.
  reported-hit :
      op ≢ null
      → mr ≢ null
      → (op == context) ≡ true
      → Lent cq mr op q m o
      → reported L cq context out s ≡ (ok (pos 1, report o out), completed cq mr op q m o s)
  unfolding reported find unlink release_op
  reported-hit nop nmr hit held = ground arith

-- A code by which nothing is reported.
abbrev pub Quiet : Libfabric → ℤ → Type 0
Quiet L code =
    ((e : Errno) × (code ≡ L.code e)) ⊎ ((is_zero code ≡ true) ⊎ (is_negative code ≡ true))

-- What a poll of the queue has done: nothing is reported and no object changes, or the slot's operation
-- was pending, is reported and pending no more.
abbrev pub Polled :
    {L : Libfabric}
    → (cq mr op : Ptr) → Cq
    → Mr
    → Op
    → Store L
    → Outcome (ℤ × Completion) × Store L
    → Type 0
Polled {L = L} cq mr op q m o s (ok (code, out), t) =
    ((w : L.World) × (t ≡ record s { world = w }) × Quiet L code)
    ⊎ ((code ≡ pos 1)
        × Lent cq mr op q m o
        × (out.op_id ≡ o.id)
        × (out.flags ≡ o.direction)
        × ((w : L.World) × (t ≡ completed cq mr op q m o (record s { world = w }))))
Polled cq mr op q m o s (err e, t) = ⊥
Polled cq mr op q m o s (panic, t) = ⊥
Polled cq mr op q m o s (unfinished, t) = ⊥

module _ {L : Libfabric} (cq mr op : Ptr) (q : Cq) (m : Mr) (o : Op) (s : Store L)
    (hq : s.cqs cq ≡ some q) (hm : s.mrs mr ≡ some m) (ho : s.ops op ≡ some o) (nop : op ≢ null)
    (nmr : mr ≢ null) (held : Lent cq mr op q m o ⊎ Idle q m o) where
  reported-Polled :
      (context : Ptr) (out : Completion) (w : L.World)
      → Polled cq mr op q m o s (reported L cq context out (record s { world = w }))
  unfolding report
  reported-Polled context out w = elim held [
    | inr idle ↦
        rw
          (reported-idle cq mr op context q m o out (record s { world = w }) hq hm ho idle.0 idle.4)
          (inl (w, refl, inl (eio, refl)))
    | inl lent ↦ elim (Bool-cases (op == context)) [
      | inr other ↦
          rw
            (reported-miss cq mr op context q m o out (record s { world = w }) hq hm ho nop other
              lent)
            (inl (w, refl, inl (eio, refl)))
      | inl hit ↦
          rw
            (reported-hit cq mr op context q m o out (record s { world = w }) hq hm ho nop nmr hit
              lent)
            (inr (refl, lent, refl, refl, (w, refl)))
    ]
  ]

  -- What `shim_cq_poll` has done on a queue with at most one slot's operation pending: either nothing
  -- but libfabric's state changes, and its code is 0, negative or an error code, or it answers 1, the operation was pending and is pending no
  -- more, in the queue, its registration and itself, and the report has its id and direction.
  pub cq_poll-Polled : cq ≢ null → Polled cq mr op q m o s (cq_poll L cq s)
  unfolding cq_poll
  cq_poll-Polled ncq =
      let live : (cq == null) ≡ false = ground arith in
      let read = L.cq_read q.raw s.world in
      let failed = L.cq_readerr q.raw read.3 in
      rw live (
        rw hq (elim (Bool-cases q.retired) [
          | inl retired ↦ rw retired (inl (s.world, refl, inl (eopbadstate, refl)))
          | inr open_yet ↦ rw open_yet (elim (Bool-cases (same_code read.0 (L.code eavail))) [
            | inl error ↦
                rw error
                  (elim (Bool-cases (same_code failed.0 (L.code eagain) || is_zero failed.0)) [
                    | inl nothing ↦ rw nothing (inl (failed.2, refl, inr (inl refl)))
                    | inr something ↦ rw something (elim (Bool-cases (is_negative failed.0)) [
                      | inl bad ↦ rw bad (inl (failed.2, refl, inr (inr bad)))
                      | inr good ↦ rw good (reported-Polled failed.1.op_context _ failed.2)
                    ])
                  ])
            | inr normal ↦
                rw normal (elim (Bool-cases (same_code read.0 (L.code eagain) || is_zero read.0)) [
                  | inl nothing ↦ rw nothing (inl (read.3, refl, inr (inl refl)))
                  | inr something ↦ rw something (elim (Bool-cases (is_negative read.0)) [
                    | inl bad ↦ rw bad (inl (read.3, refl, inr (inr bad)))
                    | inr good ↦ rw good (reported-Polled read.1 _ read.3)
                  ])
                ])
          ])
        ]))

module _ {L : Libfabric} (domain cq mr op : Ptr) where
  Polled-Keeps :
      (q : Cq) (m : Mr) (o : Op) (s : Store L) (r : Outcome (ℤ × Completion)) (t : Store L)
      → s.cqs cq ≡ some q
      → s.mrs mr ≡ some m
      → s.ops op ≡ some o
      → q.domain ≡ domain
      → m.domain ≡ domain
      → Lent cq mr op q m o ⊎ Idle q m o
      → Polled cq mr op q m o s (r, t)
      → Keeps domain cq mr op s (r, t)
  Polled-Keeps q m o s (ok (code, out)) t hq hm ho dq dm held (inl (w, same, _)) = rw same (
    (q, m, o, hq, hm, ho, dq, dm, held),
    (λ x n. refl, λ x n. refl, λ x n. refl),
    (refl, refl, refl, refl),
  )
  Polled-Keeps q m o s (ok (code, out)) t hq hm ho dq dm held (inr (one, lent, _, _, (w, done))) =
      let q1 : Cq = record q { pending = null } in
      let q2 : Cq = record q { pending = null; count = 0 } in
      let o1 : Op = record o { mr = null; cq = null; next = null } in
      let m1 : Mr = record m { pending = 0 } in
      rw done (
        (
          q2,
          m1,
          o1,
          put-same cq (some q2) (put cq (some q1) s.cqs),
          put-same mr (some m1) s.mrs,
          put-same op (some o1) s.ops,
          dq,
          dm,
          inr (refl, refl, refl, refl, refl),
        ),
        (
          λ x n.
              put-other cq x (some q2) (put cq (some q1) s.cqs) n
              ∙ put-other cq x (some q1) s.cqs n,
          λ x n. put-other mr x (some m1) s.mrs n,
          λ x n. put-other op x (some o1) s.ops n,
        ),
        (refl, refl, refl, refl),
      )
  Polled-Keeps q m o s (err e) t hq hm ho dq dm held h = h
  Polled-Keeps q m o s panic t hq hm ho dq dm held h = h
  Polled-Keeps q m o s unfinished t hq hm ho dq dm held h = h

  -- A poll of a slot's queue.
  pub cq_poll-Keeps :
      (s : Store L)
      → cq ≢ null
      → mr ≢ null
      → op ≢ null
      → Attached domain cq mr op s
      → Keeps domain cq mr op s (cq_poll L cq s)
  cq_poll-Keeps s ncq nmr nop (q, m, o, hq, hm, ho, dq, dm, held) =
      Polled-Keeps q m o s (cq_poll L cq s).0 (cq_poll L cq s).1 hq hm ho dq dm held
        (cq_poll-Polled cq mr op q m o s hq hm ho nop nmr held ncq)
