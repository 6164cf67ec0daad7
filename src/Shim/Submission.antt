-- ===== src/Shim/Submission.antt =====
-- naive/fabric_shim.c: `post_message` on the objects of one slot.
use rdma_prototype.Base.{
  ◌∙◌, sym, Bool-cases, ◌≡◌, ◌≢◌, refl, ℕ, ℤ, pos, Bool, some, ◌⊎◌, inl, inr, arith, if◌then◌else◌,
  leb, ◌==◌, not, ◌||◌, is_zero,
}
use rdma_prototype.Outcome.{Outcome, ok, err, panic, unfinished}
use rdma_prototype.Ffi.{Ptr, null, completion_send, completion_recv}
use rdma_prototype.Libfabric.{Libfabric, RawCall, fi_send, fi_recv}
use rdma_prototype.Shim.Objects.{Store, Cq, Mr, Op, Endpoint, put, up, put-same, put-other}
use rdma_prototype.Shim.Posting.{pend, submit, post_message, outside, allows}
use rdma_prototype.Shim.Lending.{Attached, Lent, Idle, Keeps}

-- The call of libfabric that submits.
abbrev submission : Endpoint → Mr → Ptr → ℕ → Ptr → Bool → RawCall
submission e m op len buf receive =
    if receive then fi_recv e.raw buf len m.raw op else fi_send e.raw buf len m.raw op

-- The operation once it is pending.
abbrev lent_op : Ptr → Ptr → Cq → Op → ℕ → Bool → Op
lent_op cq mr q o len receive = record o {
  direction = if receive then completion_recv else completion_send;
  len = len;
  mr = mr;
  cq = cq;
  next = q.pending;
}

module _ {L : Libfabric} (ep cq mr op : Ptr) (e : Endpoint) (q : Cq) (m : Mr) (o : Op) (len : ℕ)
    (buf : Ptr) (receive : Bool) where
  abbrev called : Store L → Store L
  called s = record s { world = (L.call (submission e m op len buf receive) s.world).1 }

  abbrev lent : Store L → Store L
  lent s = record (called s) {
    ops = put op (some (lent_op cq mr q o len receive)) s.ops;
    cqs = put cq (some (record q { pending = op; count = up q.count })) s.cqs;
    mrs = put mr (some (record m { pending = up m.pending })) s.mrs;
  }

  -- What a submission has done to the memory, by its code.
  abbrev pub Posted : Store L → Outcome ℤ × Store L → Type 0
  Posted s (ok code, t) =
      (t ≡ s) ⊎ ((t ≡ called s) ⊎ ((code ≡ pos 0) × (o.cq ≡ null) × (t ≡ lent s)))
  Posted s (err x, t) = ⊥
  Posted s (panic, t) = ⊥
  Posted s (unfinished, t) = ⊥

  pend_lem :
      (s : Store L)
      → s.cqs cq ≡ some q
      → s.mrs mr ≡ some m
      → s.ops op ≡ some o
      → pend L cq mr op len receive s ≡ (
        ok tt,
        record s {
          ops = put op (some (lent_op cq mr q o len receive)) s.ops;
          cqs = put cq (some (record q { pending = op; count = up q.count })) s.cqs;
          mrs = put mr (some (record m { pending = up m.pending })) s.mrs;
        },
      )
  unfolding pend
  pend_lem s hq hm ho = ground arith

  submit-Posted :
      (s : Store L)
      → s.cqs cq ≡ some q
      → s.mrs mr ≡ some m
      → s.ops op ≡ some o
      → o.cq ≡ null
      → (if receive then e.rx else e.tx) ≡ cq
      → Posted s (submit L e m mr op len buf receive s)
  unfolding submit
  submit-Posted s hq hm ho idle its =
      let call = submission e m op len buf receive in
      elim (Bool-cases (leb q.capacity q.count)) [
        | inl full ↦ rw its (rw hq (rw full (inl refl)))
        | inr room ↦ rw its (
            rw hq (
              rw room (elim (Bool-cases (is_zero (L.call call s.world).0)) [
                | inl accepted ↦
                    rw accepted (rw (pend_lem (called s) hq hm ho) (inr (inr (refl, idle, refl))))
                | inr refused ↦ rw refused (inr (inl refl))
              ])))
      ]

  pub post_message-Posted :
      (s : Store L)
      → s.endpoints ep ≡ some e
      → s.cqs cq ≡ some q
      → s.mrs mr ≡ some m
      → s.ops op ≡ some o
      → (if receive then e.rx else e.tx) ≡ cq
      → Posted s (post_message L ep op mr len buf receive s)
  unfolding post_message
  post_message-Posted s he hq hm ho its =
      elim (Bool-cases (ep == null || op == null || mr == null || buf == null)) [
        | inl bad ↦ rw bad (inl refl)
        | inr good ↦ rw good (
            rw he (elim (Bool-cases (not e.ready || e.closing)) [
              | inl bad ↦ rw bad (inl refl)
              | inr open_yet ↦ rw open_yet (
                  rw hm (elim (Bool-cases (not (m.domain == e.domain))) [
                    | inl bad ↦ rw bad (inl refl)
                    | inr ours ↦ rw ours (
                        rw ho (elim (Bool-cases (o.cq == null)) [
                          | inr busy ↦ rw busy (inl refl)
                          | inl idle ↦ rw idle (elim (Bool-cases (allows m receive)) [
                            | inr bad ↦ rw bad (inl refl)
                            | inl allowed ↦
                                rw allowed (elim (Bool-cases (outside m e.max_msg buf len)) [
                                  | inl bad ↦ rw bad (inl refl)
                                  | inr within ↦
                                      rw within (submit-Posted s hq hm ho (ground arith) its)
                                ])
                          ])
                        ]))
                  ]))
            ]))
      ]

module _ {L : Libfabric} where
  Posted-Keeps :
      (domain ep cq mr op : Ptr) (e : Endpoint) (q : Cq) (m : Mr) (o : Op) (len : ℕ) (buf : Ptr)
      (receive : Bool) (s : Store L) (r : Outcome ℤ) (t : Store L)
      → cq ≢ null
      → s.cqs cq ≡ some q
      → s.mrs mr ≡ some m
      → s.ops op ≡ some o
      → q.domain ≡ domain
      → m.domain ≡ domain
      → Lent cq mr op q m o ⊎ Idle q m o
      → Posted ep cq mr op e q m o len buf receive s (r, t)
      → Keeps domain cq mr op s (r, t)
  Posted-Keeps domain ep cq mr op e q m o len buf receive s (ok code) t ncq hq hm ho dq dm held
        (inl same) =
      rw same (
        (q, m, o, hq, hm, ho, dq, dm, held),
        (λ x n. refl, λ x n. refl, λ x n. refl),
        (refl, refl, refl, refl),
      )
  Posted-Keeps domain ep cq mr op e q m o len buf receive s (ok code) t ncq hq hm ho dq dm held
        (inr (inl moved)) =
      rw moved (
        (q, m, o, hq, hm, ho, dq, dm, held),
        (λ x n. refl, λ x n. refl, λ x n. refl),
        (refl, refl, refl, refl),
      )
  Posted-Keeps domain ep cq mr op e q m o len buf receive s (ok code) t ncq hq hm ho dq dm
        (inl held) (inr (inr (fine, idle, done))) =
      absurd (ncq (sym held.3 ∙ idle))
  Posted-Keeps domain ep cq mr op e q m o len buf receive s (ok code) t ncq hq hm ho dq dm
        (inr held) (inr (inr (fine, idle, done))) =
      rw done (
        (
          record q { pending = op; count = up q.count },
          record m { pending = up m.pending },
          lent_op cq mr q o len receive,
          put-same cq (some (record q { pending = op; count = up q.count })) s.cqs,
          put-same mr (some (record m { pending = up m.pending })) s.mrs,
          put-same op (some (lent_op cq mr q o len receive)) s.ops,
          dq,
          dm,
          inl (refl, ground (arith, held.4), ground (arith, held.1), refl, refl, held.0),
        ),
        (
          λ x n. put-other cq x (some (record q { pending = op; count = up q.count })) s.cqs n,
          λ x n. put-other mr x (some (record m { pending = up m.pending })) s.mrs n,
          λ x n. put-other op x (some (lent_op cq mr q o len receive)) s.ops n,
        ),
        (refl, refl, refl, refl),
      )
  Posted-Keeps domain ep cq mr op e q m o len buf receive s (err x) t ncq hq hm ho dq dm held h = h
  Posted-Keeps domain ep cq mr op e q m o len buf receive s panic t ncq hq hm ho dq dm held h = h
  Posted-Keeps domain ep cq mr op e q m o len buf receive s unfinished t ncq hq hm ho dq dm held h =
      h

  -- A slot's submission of its own operation.
  pub post_message-Keeps :
      (domain ep cq mr op : Ptr) (e : Endpoint) (len : ℕ) (buf : Ptr) (receive : Bool) (s : Store L)
      → cq ≢ null
      → s.endpoints ep ≡ some e
      → (if receive then e.rx else e.tx) ≡ cq
      → Attached domain cq mr op s
      → Keeps domain cq mr op s (post_message L ep op mr len buf receive s)
  post_message-Keeps domain ep cq mr op e len buf receive s ncq he its
        (q, m, o, hq, hm, ho, dq, dm, held) =
      Posted-Keeps domain ep cq mr op e q m o len buf receive s
        (post_message L ep op mr len buf receive s).0 (post_message L ep op mr len buf receive s).1
        ncq hq hm ho dq dm held
        (post_message-Posted ep cq mr op e q m o len buf receive s he hq hm ho its)
