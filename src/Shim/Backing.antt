-- ===== src/Shim/Backing.antt =====
-- The transport on the shim: the machine's foreign calls are the functions of naive/fabric_shim.c.
use rdma_prototype.Base.{ℕ, List, false, ◌≡◌, ◌≢◌, refl, ℤ, pos, String, arith}
use rdma_prototype.Outcome.{Outcome, ok, err, panic, unfinished}
use rdma_prototype.Ffi as Ffi
use rdma_prototype.Ffi.{Ptr, null, Open, Status}
use rdma_prototype.Machine.{Machine, At, Exec, zoom}
use rdma_prototype.Machine.Logic.{Leaves}
use rdma_prototype.Libfabric.{Libfabric}
use rdma_prototype.Transport.Handle.{close_handle}
use rdma_prototype.Shim.Objects.{Store}
use rdma_prototype.Shim.Linking.{shim_open, shim_status}
use rdma_prototype.Shim.Polling as Polling
use rdma_prototype.Shim.Listening as Listening
use rdma_prototype.Shim.Querying as Querying

-- A call answers as the shim does. Nothing is said of a call that is undefined behaviour.
abbrev pub Serves :
    {A : Type 0} {L : Libfabric} {W : Type 0} → (W → Store L) → A × W → Outcome A × Store L → Type 0
Serves store answer (ok code, t) = (answer.0 ≡ code) × (store answer.1 ≡ t)
Serves store answer (err e, t) = Unit
Serves store answer (panic, t) = Unit
Serves store answer (unfinished, t) = Unit

-- The shim's memory in the world of a machine: its foreign functions are the shim's, and the clock and
-- the memory behind the boxes leave the shim's alone.
pub record Backed (M : Machine) (L : Libfabric) : Type 0 where
  pub store : M.World → Store L
  pub open_handle :
      (c : Open) (w : M.World)
      → Serves store
          (let (code, p, u) = M.open_handle c w in ((code, p), u))
          (shim_open L c (store w))
  pub status : (c : Status) (w : M.World) → Serves store (M.status c w) (shim_status L c (store w))
  pub eq_poll :
      (p : Ptr) (w : M.World)
      → Serves store
          (let (code, event, u) = M.eq_poll p w in ((code, event), u))
          (Listening.eq_poll L p (store w))
  pub cq_poll :
      (p : Ptr) (w : M.World)
      → Serves store
          (let (code, done, u) = M.cq_poll p w in ((code, done), u))
          (Polling.cq_poll L p (store w))
  pub info_free :
      (p : Ptr) (w : M.World)
      → Serves store (tt, M.info_free p w) (Querying.info_free L p (store w))
  pub fabric_version : M.fabric_version ≡ Querying.fabric_version L
  pub error_string : (code : ℤ) → M.error_string code ≡ Querying.error_string L code
  pub error_is_again : (code : ℤ) → M.error_is_again code ≡ Querying.error_is_again L code
  pub now : (w : M.World) → store (M.now w).1 ≡ store w
  pub sleep : (d : ℕ) (w : M.World) → store (M.sleep d w) ≡ store w
  pub allocate : (n : ℕ) (w : M.World) → store (M.allocate n w).1 ≡ store w
  pub write : (p : Ptr) (bytes : List ℕ) (w : M.World) → store (M.store p bytes w) ≡ store w
  pub release : (p : Ptr) (w : M.World) → store (M.release p w) ≡ store w

-- The shim's memory, as a method of the transport finds it.
abbrev pub memory : {M : Machine} {L : Libfabric} {T : Type 0} → Backed M L → At M T → Store L
memory backed s = backed.store s.env.world

module _ {M : Machine} {L : Libfabric} (backed : Backed M L) where
  -- A `close!` of a handle that the shim closes.
  pub close_handle-Leaves :
      (Q : Store L → Type 0) (function : Ptr → Status) (name : String) (shim : Outcome ℤ × Store L)
      (s : At M Ptr)
      → s.self ≢ null
      → Serves backed.store (M.status (function s.self) s.env.world) shim
      → (t : Store L) × (shim ≡ (ok (pos 0), t)) × Q t
      → Leaves
          (λ _ u. (u.self ≡ null) × Q (backed.store u.env.world))
          (λ _. ⊥)
          (close_handle M function name s)
  unfolding close_handle
  close_handle-Leaves Q function name shim s live serves (t, h, q) =
      let same : Serves backed.store (M.status (function s.self) s.env.world) (ok (pos 0), t) =
        rw h at serves in
      let alive : (Ffi.is_null s.self) ≡ false = ground arith in
      rw alive (rw same.0 (refl, rw same.1 q))

  -- The same for a part of an object.
  pub zoom-Leaves :
      {T P : Type 0} (Q : Store L → Type 0) (get : T → P) (put : P → T → T) (x : P) (whole : T)
      (m : Exec (At M P) Unit) (s : At M T)
      → s.self ≡ whole
      → Leaves
          (λ _ u. (u.self ≡ x) × Q (backed.store u.env.world))
          (λ _. ⊥)
          (m (record { self = get s.self; env = s.env }))
      → Leaves
          (λ _ u. (u.self ≡ put x whole) × Q (backed.store u.env.world))
          (λ _. ⊥)
          (zoom M get put m s)
  zoom-Leaves {T = T} {P = P} Q get put x whole m s here h =
      go (m (record { self = get s.self; env = s.env })).0
        (m (record { self = get s.self; env = s.env })).1 h
    where
      go :
          (r : Outcome Unit) (t : At M P)
          → Leaves {S = At M P} (λ _ u. (u.self ≡ x) × Q (backed.store u.env.world)) (λ _. ⊥) (r, t)
          → Leaves {S = At M T}
              (λ _ u. (u.self ≡ put x whole) × Q (backed.store u.env.world))
              (λ _. ⊥)
              (r, record { self = put t.self s.self; env = t.env })
      go (ok u) t (gone, q) = (rw (gone, here) refl, q)
      go (err e) t h = h
      go panic t h = h
      go unfinished t h = h

  -- A `close!` of a handle in a field.
  pub close_field-Leaves :
      {T : Type 0} (Q : Store L → Type 0) (get : T → Ptr) (put : Ptr → T → T)
      (function : Ptr → Status) (name : String) (shim : Ptr → Outcome ℤ × Store L) (whole : T)
      (p : Ptr) (s : At M T)
      → s.self ≡ whole
      → get whole ≡ p
      → p ≢ null
      → Serves backed.store (M.status (function p) s.env.world) (shim p)
      → (t : Store L) × (shim p ≡ (ok (pos 0), t)) × Q t
      → Leaves
          (λ _ u. (u.self ≡ put null whole) × Q (backed.store u.env.world))
          (λ _. ⊥)
          (zoom M get put (close_handle M function name) s)
  close_field-Leaves Q get put function name shim whole p s here field live serves works =
      let part : At M Ptr = record { self = get s.self; env = s.env } in
      zoom-Leaves Q get put null whole (close_handle M function name) s here (
        close_handle-Leaves Q function name (shim p) part (rw (here, field) live)
          (rw (here, field) serves) works)
