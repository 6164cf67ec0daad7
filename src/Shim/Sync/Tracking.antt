-- ===== src/Shim/Sync/Tracking.antt =====
-- naive/fabric_shim.c: the `pending` flag of a slot of src/transport.rs against the queue of its
-- operation.
use rdma_prototype.Base.{
  ℤ, ℕ, pos, Bool, true, false, ◌≡◌, ◌≢◌, ◌∙◌, refl, sym, ap, some, ◌⊎◌, inl, inr, if◌then◌else◌,
}
use rdma_prototype.Outcome.{Outcome, ok, err, panic, unfinished}
use rdma_prototype.Ffi.{Ptr, null, Completion, completion_send, completion_recv}
use rdma_prototype.Libfabric.{Libfabric}
use rdma_prototype.Shim.Objects.{Store, Cq, Op, Endpoint, put, put-same, up}
use rdma_prototype.Shim.Posting.{post_message}
use rdma_prototype.Shim.Polling.{cq_poll}
use rdma_prototype.Shim.Lending.{Attached, Frame}
use rdma_prototype.Shim.Submission.{Posted, post_message-Posted}
use rdma_prototype.Shim.Completing.{Polled, cq_poll-Polled, Quiet}

-- The operation has its id, and it is pending in its queue only while the flag is set, in the slot's
-- direction.
abbrev pub Tracked : {L : Libfabric} → (id direction : ℕ) → Bool → (cq op : Ptr) → Store L → Type 0
Tracked id direction pending cq op s =
    (q : Cq) × (o : Op) × (s.cqs cq ≡ some q)
    × (s.ops op ≡ some o)
    × (o.id ≡ id)
    × ((q.pending ≡ null) ⊎ ((pending ≡ true) × (o.direction ≡ direction)))

pub Tracked-set :
    {L : Libfabric} (id direction : ℕ) (pending : Bool) (cq op : Ptr) (s : Store L)
    → Tracked id direction pending cq op s
    → Tracked id direction true cq op s
Tracked-set id direction pending cq op s (q, o, hq, ho, same, inl idle) =
    (q, o, hq, ho, same, inl idle)
Tracked-set id direction pending cq op s (q, o, hq, ho, same, inr held) =
    (q, o, hq, ho, same, inr (refl, held.1))

pub Tracked-any :
    {L : Libfabric} (id direction : ℕ) (pending : Bool) (cq op : Ptr) (s : Store L)
    → Tracked id direction false cq op s
    → Tracked id direction pending cq op s
Tracked-any id direction pending cq op s (q, o, hq, ho, same, inl idle) =
    (q, o, hq, ho, same, inl idle)
Tracked-any id direction pending cq op s (q, o, hq, ho, same, inr held) = cc

pub Tracked-Frame :
    {L : Libfabric} (id direction : ℕ) (pending : Bool) (cq op cq2 mr2 op2 : Ptr) (s t : Store L)
    → cq ≢ cq2
    → op ≢ op2
    → Frame cq2 mr2 op2 s t
    → Tracked id direction pending cq op s
    → Tracked id direction pending cq op t
Tracked-Frame id direction pending cq op cq2 mr2 op2 s t nq np frame (q, o, hq, ho, same, held) =
    (q, o, frame.0 cq nq ∙ hq, frame.2 op np ∙ ho, same, held)

-- The flag that a submission of the slot may set.
abbrev pub Submits :
    {L : Libfabric} → (id direction : ℕ) → Bool → (cq op : Ptr) → Outcome ℤ × Store L → Type 0
Submits id direction pending cq op (ok code, t) =
    Tracked id direction pending cq op t ⊎ ((code ≡ pos 0) × Tracked id direction true cq op t)
Submits id direction pending cq op (err e, t) = ⊥
Submits id direction pending cq op (panic, t) = ⊥
Submits id direction pending cq op (unfinished, t) = ⊥

-- A poll reports nothing, or the operation of the slot, whose flag is set.
abbrev pub Reports :
    {L : Libfabric}
    → (id direction : ℕ) → Bool
    → (cq op : Ptr) → Outcome (ℤ × Completion) × Store L
    → Type 0
Reports {L = L} id direction pending cq op (ok (code, out), t) =
    (Tracked id direction pending cq op t × Quiet L code)
    ⊎ ((code ≡ pos 1)
        × (pending ≡ true)
        × (out.op_id ≡ id)
        × (out.flags ≡ direction)
        × Tracked id direction false cq op t)
Reports id direction pending cq op (err e, t) = ⊥
Reports id direction pending cq op (panic, t) = ⊥
Reports id direction pending cq op (unfinished, t) = ⊥

abbrev pub direction_of : Bool → ℕ
direction_of receive = if receive then completion_recv else completion_send

some_inj : {A : Type 0} {a b : A} → some a ≡ some b → a ≡ b
some_inj h = cc

module _ {L : Libfabric} where
  -- A submission of the slot by its own operation.
  pub post_message-Submits :
      (id : ℕ) (pending : Bool) (domain ep cq mr op : Ptr) (e : Endpoint) (len : ℕ) (buf : Ptr)
      (receive : Bool) (s : Store L)
      → s.endpoints ep ≡ some e
      → (if receive then e.rx else e.tx) ≡ cq
      → Attached domain cq mr op s
      → Tracked id (direction_of receive) pending cq op s
      → Submits id (direction_of receive) pending cq op (post_message L ep op mr len buf receive s)
  post_message-Submits id pending domain ep cq mr op e len buf receive s he its
        (q, m, o, hq, hm, ho, dq, dm, held) (q2, o2, hq2, ho2, same, flag) =
      go (post_message L ep op mr len buf receive s).0 (post_message L ep op mr len buf receive s).1
        (post_message-Posted ep cq mr op e q m o len buf receive s he hq hm ho its)
    where
      go :
          (r : Outcome ℤ) (t : Store L)
          → Posted ep cq mr op e q m o len buf receive s (r, t)
          → Submits id (direction_of receive) pending cq op (r, t)
      go (ok code) t (inl h) = inl (rw h (q2, o2, hq2, ho2, same, flag))
      go (ok code) t (inr (inl h)) = inl (rw h (q2, o2, hq2, ho2, same, flag))
      go (ok code) t (inr (inr (fine, idle, h))) = inr (
        fine,
        rw h (
          _,
          _,
          put-same cq (some (record q { pending = op; count = up q.count })) s.cqs,
          put-same op _ s.ops,
          ap (λ o. o.id) (some_inj (sym ho ∙ ho2)) ∙ same,
          inr (refl, refl),
        ),
      )
      go (err x) t h = h
      go panic t h = h
      go unfinished t h = h

  -- A poll of the slot's queue.
  pub cq_poll-Reports :
      (id direction : ℕ) (pending : Bool) (domain cq mr op : Ptr) (s : Store L)
      → cq ≢ null
      → mr ≢ null
      → op ≢ null
      → Attached domain cq mr op s
      → Tracked id direction pending cq op s
      → Reports id direction pending cq op (cq_poll L cq s)
  cq_poll-Reports id direction pending domain cq mr op s ncq nmr nop
        (q, m, o, hq, hm, ho, dq, dm, held) (q2, o2, hq2, ho2, same, flag) =
      go (cq_poll L cq s).0 (cq_poll L cq s).1
        (cq_poll-Polled cq mr op q m o s hq hm ho nop nmr held ncq)
    where
      go :
          (r : Outcome (ℤ × Completion)) (t : Store L)
          → Polled cq mr op q m o s (r, t)
          → Reports id direction pending cq op (r, t)
      go (ok (code, out)) t (inl (w, h, quiet)) = inl ((rw h (q2, o2, hq2, ho2, same, flag)), quiet)
      go (ok (code, out)) t (inr (one, lent, number, kind, (w, h))) =
          let eq_q : q ≡ q2 = some_inj (sym hq ∙ hq2) in
          let eq_o : o ≡ o2 = some_inj (sym ho ∙ ho2) in
          elim flag [
            | inl idle ↦ absurd (nop (sym lent.0 ∙ ap (λ q. q.pending) eq_q ∙ idle))
            | inr (set, kept) ↦ inr (
              one,
              set,
              number ∙ ap (λ o. o.id) eq_o ∙ same,
              kind ∙ ap (λ o. o.direction) eq_o ∙ kept,
              rw h (
                _,
                _,
                put-same cq (some (record q { pending = null; count = 0 }))
                    (put cq (some (record q { pending = null })) s.cqs),
                put-same op (some (record o { mr = null; cq = null; next = null })) s.ops,
                ap (λ o. o.id) eq_o ∙ same,
                inl refl,
              ),
            )
          ]
      go (err x) t h = h
      go panic t h = h
      go unfinished t h = h
