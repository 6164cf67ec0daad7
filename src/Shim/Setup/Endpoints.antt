-- ===== src/Shim/Setup/Endpoints.antt =====
-- naive/fabric_shim.c: what `shim_endpoint_open` leaves in the shim's memory when it answers 0, for a
-- domain, an event queue and two new completion queues that are there.
use rdma_prototype.Base.{ℕ, ◌+◌, ℤ, true, some, ◌≡◌, ◌≢◌, ◌∙◌, sym, arith}
use rdma_prototype.Outcome.{Outcome, ok, err, panic, unfinished}
use rdma_prototype.Ffi.{Ptr, null}
use rdma_prototype.Machine.{Exec, resume, ◌>>=◌, ◌>>◌}
use rdma_prototype.Machine.Logic.{Leaves}
use rdma_prototype.Libfabric.{Libfabric, FiInfo, einval, enomem, enosys, fi_endpoint}
use rdma_prototype.Shim.Objects.{Store, Domain, Eq, Cq, put, put-same, put-other, up}
use rdma_prototype.Shim.Opening.{
  bind_endpoint, make_endpoint, take_queue, attach, enabled, endpoint_open,
}
use rdma_prototype.Shim.Setup.Opened.{Failing, Answers}
use rdma_prototype.Shim.Setup.Enabling.{new_endpoint, bind_endpoint-Leaves, enabled-Answers}

-- The property of the memory after the last step: the new endpoint is ready, and its references count.
abbrev pub Enabled :
    {L : Libfabric}
    → (domain eq tx rx max_msg : Ptr) → Cq
    → Cq
    → Eq
    → Domain
    → Store L
    → (Ptr → Store L → Type 0)
    → Type 0
Enabled {L = L} domain eq tx rx max_msg t r q d s P =
    (raw : Ptr) (w : L.World)
    → P s.next (record s {
      world = w;
      next = s.next + 1;
      endpoints =
          put s.next (some (record (new_endpoint raw domain eq tx rx max_msg) { ready = true }))
            (put s.next (some (new_endpoint raw domain eq tx rx max_msg)) s.endpoints);
      domains = put domain (some (record d { children = up d.children })) s.domains;
      eqs = put eq (some (record q { users = up q.users })) s.eqs;
      cqs = put rx (some (take_queue L r)) (put tx (some (take_queue L t)) s.cqs);
    })

module _ {L : Libfabric} where
  attach_lem :
      (ep raw domain eq tx rx max_msg : ℕ) (t r : Cq) (q : Eq) (d : Domain) (s : Store L)
      → s.cqs tx ≡ some t
      → s.cqs rx ≡ some r
      → s.eqs eq ≡ some q
      → s.domains domain ≡ some d
      → rx ≢ tx
      → attach L ep raw domain eq tx rx max_msg s ≡ (
        ok tt,
        record s {
          endpoints = put ep (some (new_endpoint raw domain eq tx rx max_msg)) s.endpoints;
          domains = put domain (some (record d { children = up d.children })) s.domains;
          eqs = put eq (some (record q { users = up q.users })) s.eqs;
          cqs = put rx (some (take_queue L r)) (put tx (some (take_queue L t)) s.cqs);
        },
      )
  unfolding attach
  attach_lem ep raw domain eq tx rx max_msg t r q d s ht hr hq hd n = ground arith

  Answers-bind :
      {A : Type 0} (P : Ptr → Store L → Type 0) (m : Exec (Store L) A)
      (f : A → Exec (Store L) (ℤ × Ptr)) (s : Store L)
      → Leaves (λ a u. Answers P (f a u)) (λ _. ⊥) (m s)
      → Answers P ((m >>= f) s)
  Answers-bind {A = A} P m f s h = go (m s).0 (m s).1 h
    where
      go :
          (a : Outcome A) (u : Store L)
          → Leaves (λ a u. Answers P (f a u)) (λ _. ⊥) (a, u)
          → Answers P (resume a f u)
      go (ok a) u h = h
      go (err e) u h = absurd h
      go panic u h = absurd h
      go unfinished u h = absurd h

  -- The end of the function, on a new endpoint.
  attached-Answers :
      (P : Ptr → Store L → Type 0) (ep raw domain eq tx rx max_msg handle : Ptr) (t r : Cq) (q : Eq)
      (d : Domain) (s : Store L)
      → s.cqs tx ≡ some t
      → s.cqs rx ≡ some r
      → s.eqs eq ≡ some q
      → s.domains domain ≡ some d
      → t.pending ≡ null
      → r.pending ≡ null
      → rx ≢ tx
      → ((w : L.World)
          → P ep (record s {
            world = w;
            endpoints =
                put ep
                  (some (record (new_endpoint raw domain eq tx rx max_msg) { ready = true }))
                  (put ep (some (new_endpoint raw domain eq tx rx max_msg)) s.endpoints);
            domains = put domain (some (record d { children = up d.children })) s.domains;
            eqs = put eq (some (record q { users = up q.users })) s.eqs;
            cqs = put rx (some (take_queue L r)) (put tx (some (take_queue L t)) s.cqs);
          }))
      → Answers P (
          (do
            attach L ep raw domain eq tx rx max_msg
            ret ← bind_endpoint L raw eq tx rx
            enabled L ret ep handle)
            s)
  attached-Answers P ep raw domain eq tx rx max_msg handle t r q d s ht hr hq hd it ir n k =
      let e = new_endpoint raw domain eq tx rx max_msg in
      let u : Store L = record s {
        endpoints = put ep (some e) s.endpoints;
        domains = put domain (some (record d { children = up d.children })) s.domains;
        eqs = put eq (some (record q { users = up q.users })) s.eqs;
        cqs = put rx (some (take_queue L r)) (put tx (some (take_queue L t)) s.cqs);
      } in
      let tx_taken : u.cqs tx ≡ some (take_queue L t) =
        put-other rx tx (some (take_queue L r)) (put tx (some (take_queue L t)) s.cqs)
          (λ h. n (sym h))
        ∙ put-same tx (some (take_queue L t)) s.cqs in
      let rx_taken : u.cqs rx ≡ some (take_queue L r) =
        put-same rx (some (take_queue L r)) (put tx (some (take_queue L t)) s.cqs) in
      let eq_used : u.eqs eq ≡ some (record q { users = up q.users }) =
        put-same eq (some (record q { users = up q.users })) s.eqs in
      let parent : u.domains domain ≡ some (record d { children = up d.children }) =
        put-same domain (some (record d { children = up d.children })) s.domains in
      rw (attach_lem ep raw domain eq tx rx max_msg t r q d s ht hr hq hd n) (
        Answers-bind P (bind_endpoint L raw eq tx rx) (λ ret. enabled L ret ep handle) u
          (bind_endpoint-Leaves _ raw eq tx rx _ _ _ u eq_used tx_taken rx_taken (λ code w.
            enabled-Answers P code ep handle e _ _ _ _ (record u { world = w })
              (put-same ep (some e) s.endpoints) tx_taken rx_taken eq_used parent it ir n (k w))))

  make_endpoint-Answers :
      (fails : Failing L) (P : Ptr → Store L → Type 0) (domain eq tx rx : Ptr) (i : FiInfo)
      (t r : Cq) (q : Eq) (d : Domain) (s : Store L)
      → s.next ≢ null
      → s.cqs tx ≡ some t
      → s.cqs rx ≡ some r
      → s.eqs eq ≡ some q
      → s.domains domain ≡ some d
      → t.pending ≡ null
      → r.pending ≡ null
      → rx ≢ tx
      → Enabled domain eq tx rx i.max_msg_size t r q d s P
      → Answers P (make_endpoint L d i domain eq tx rx s)
  unfolding make_endpoint
  make_endpoint-Answers fails P domain eq tx rx i t r q d s nn ht hr hq hd it ir apart k =
      let made = L.open_raw (fi_endpoint d.raw i.raw) (L.has_memory s.world).1 in
      let u : Store L = record s { world = made.2; next = s.next + 1 } in
      let done =
        attached-Answers P s.next made.1 domain eq tx rx i.max_msg_size i.handle t r q d u ht hr hq
          hd it ir apart (λ w. k made.1 w) in
      ground (arith, fails enomem, done)

  -- The endpoint, the references that it takes, and nothing else.
  pub endpoint_open-Answers :
      (fails : Failing L) (P : Ptr → Store L → Type 0) (domain info eq tx rx : Ptr) (i : FiInfo)
      (t r : Cq) (q : Eq) (d : Domain) (s : Store L)
      → s.next ≢ null
      → s.infos info ≡ some i
      → s.cqs tx ≡ some t
      → s.cqs rx ≡ some r
      → s.eqs eq ≡ some q
      → s.domains domain ≡ some d
      → t.pending ≡ null
      → r.pending ≡ null
      → rx ≢ tx
      → Enabled domain eq tx rx i.max_msg_size t r q d s P
      → Answers P (endpoint_open L domain info eq tx rx s)
  unfolding endpoint_open
  endpoint_open-Answers fails P domain info eq tx rx i t r q d s nn hi ht hr hq hd it ir apart k =
      let done =
        make_endpoint-Answers fails P domain eq tx rx i t r q d s nn ht hr hq hd it ir apart k in
      ground (arith, fails einval, fails enosys, done)
