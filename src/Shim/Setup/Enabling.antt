-- ===== src/Shim/Setup/Enabling.antt =====
-- naive/fabric_shim.c: the binds of `shim_endpoint_open`, and the close of an
-- endpoint whose binds fail.
use rdma_prototype.Base.{
  Bool-cases, inl, inr, ℕ, ℤ, true, false, some, ◌≡◌, ◌≢◌, ◌∙◌, refl, is_zero, arith,
}
use rdma_prototype.Outcome.{Outcome, ok, err, panic, unfinished}
use rdma_prototype.Ffi.{Ptr, null}
use rdma_prototype.Machine.Logic.{Leaves}
use rdma_prototype.Libfabric.{Libfabric, plain, transmit, recv, fi_ep_bind, fi_enable, fi_close}
use rdma_prototype.Shim.Objects.{Store, Domain, Eq, Cq, Endpoint, put, put-other}
use rdma_prototype.Shim.Closing.{retire_cq, release_buffers, release_endpoint, endpoint_close}
use rdma_prototype.Shim.Opening.{bind_endpoint, enabled}
use rdma_prototype.Shim.Setup.Opened.{Answers}

-- An endpoint as `shim_endpoint_open` makes it, before its binds.
abbrev pub new_endpoint : (raw domain eq tx rx max_msg : ℕ) → Endpoint
new_endpoint raw domain eq tx rx max_msg = record {
  raw = raw;
  domain = domain;
  eq = eq;
  tx = tx;
  rx = rx;
  max_msg = max_msg;
  ready = false;
  closing = false;
}

-- A call that returns without undefined behaviour.
abbrev pub Answered : {A : Type 0} {L : Libfabric} → Outcome A × Store L → Type 0
Answered (ok a, t) = Unit
Answered (err e, t) = ⊥
Answered (panic, t) = ⊥
Answered (unfinished, t) = ⊥

module _ {L : Libfabric} where
  -- The binds change nothing but libfabric's state.
  pub bind_endpoint-Leaves :
      (P : ℤ → Store L → Type 0) (raw eq tx rx : Ptr) (q : Eq) (t r : Cq) (s : Store L)
      → s.eqs eq ≡ some q
      → s.cqs tx ≡ some t
      → s.cqs rx ≡ some r
      → ((code : ℤ) (w : L.World) → P code (record s { world = w }))
      → Leaves P (λ _. ⊥) (bind_endpoint L raw eq tx rx s)
  unfolding bind_endpoint
  bind_endpoint-Leaves P raw eq tx rx q t r s hq ht hr k =
      let one = L.call (fi_ep_bind raw q.raw plain) s.world in
      let two = L.call (fi_ep_bind raw t.raw transmit) one.1 in
      let three = L.call (fi_ep_bind raw r.raw recv) two.1 in
      let four = L.call (fi_enable raw) three.1 in
      ground (arith, k one.0 one.1, k two.0 two.1, k three.0 three.1, k four.0 four.1)

  -- An idle queue is retired at once.
  retire_cq-idle :
      (cq : Ptr) (q : Cq) (s : Store L)
      → s.cqs cq ≡ some q
      → q.pending ≡ null
      → retire_cq L cq s ≡ (
        ok tt,
        record s { cqs = put cq (some (record q { attached = false; retired = true })) s.cqs },
      )
  unfolding retire_cq release_buffers
  retire_cq-idle cq q s hq h = ground arith

  release_endpoint-idle :
      (ep : Ptr) (e : Endpoint) (t r : Cq) (q : Eq) (d : Domain) (s : Store L)
      → s.cqs e.tx ≡ some t
      → s.cqs e.rx ≡ some r
      → s.eqs e.eq ≡ some q
      → s.domains e.domain ≡ some d
      → t.pending ≡ null
      → r.pending ≡ null
      → e.rx ≢ e.tx
      → (u : Store L) × (release_endpoint L ep e s ≡ (ok tt, u))
  unfolding release_endpoint
  release_endpoint-idle ep e t r q d s ht hr hq hd it ir n =
      let u : Store L = record s {
        cqs = put e.tx (some (record t { attached = false; retired = true })) s.cqs;
      } in
      (
        (release_endpoint L ep e s).1,
        rw (retire_cq-idle e.tx t s ht it) (
            rw (retire_cq-idle e.rx r u (put-other e.tx e.rx _ s.cqs n ∙ hr) ir)
              (rw (hq, hd) refl)),
      )

  endpoint_close-Answered :
      (ep : Ptr) (e : Endpoint) (t r : Cq) (q : Eq) (d : Domain) (s : Store L)
      → s.endpoints ep ≡ some e
      → s.cqs e.tx ≡ some t
      → s.cqs e.rx ≡ some r
      → s.eqs e.eq ≡ some q
      → s.domains e.domain ≡ some d
      → t.pending ≡ null
      → r.pending ≡ null
      → e.rx ≢ e.tx
      → Answered (endpoint_close L ep s)
  unfolding endpoint_close
  endpoint_close-Answered ep e t r q d s he ht hr hq hd it ir n =
      let closed : Store L = record s {
        world = (L.call (fi_close e.raw) s.world).1;
        endpoints = put ep (some (record e { closing = true })) s.endpoints;
      } in
      let (u, released) =
        release_endpoint-idle ep (record e { closing = true }) t r q d closed ht hr hq hd it ir n in
      ground arith

  -- After the binds: the endpoint is ready, or the answer is not 0.
  pub enabled-Answers :
      (P : Ptr → Store L → Type 0) (ret : ℤ) (ep handle : Ptr) (e : Endpoint) (t r : Cq) (q : Eq)
      (d : Domain) (s : Store L)
      → s.endpoints ep ≡ some e
      → s.cqs e.tx ≡ some t
      → s.cqs e.rx ≡ some r
      → s.eqs e.eq ≡ some q
      → s.domains e.domain ≡ some d
      → t.pending ≡ null
      → r.pending ≡ null
      → e.rx ≢ e.tx
      → P ep (record s { endpoints = put ep (some (record e { ready = true })) s.endpoints })
      → Answers P (enabled L ret ep handle s)
  unfolding enabled
  enabled-Answers P ret ep handle e t r q d s he ht hr hq hd it ir n k =
      elim (Bool-cases (is_zero ret)) [
        | inl zero ↦ ground arith
        | inr failed ↦
            go (endpoint_close L ep s).0 (endpoint_close L ep s).1 refl
              (endpoint_close-Answered ep e t r q d s he ht hr hq hd it ir n) failed
      ]
    where
      go :
          (a : Outcome ℤ) (u : Store L)
          → endpoint_close L ep s ≡ (a, u)
          → Answered (a, u)
          → is_zero ret ≡ false
          → Answers P (enabled L ret ep handle s)
      go (ok code) u h answered failed = ground arith
      go (err x) u h answered failed = absurd answered
      go panic u h answered failed = absurd answered
      go unfinished u h answered failed = absurd answered
