-- ===== src/Shim/Setup/Attaching.antt =====
-- The endpoint and the slots that `initialize` of src/transport.rs opens on naive/fabric_shim.c.
use rdma_prototype.Base.{Option, ℕ, ◌+◌, ◌≡◌, ◌≢◌, some, arith}
use rdma_prototype.Outcome.{Outcome, ok, err, panic, unfinished}
use rdma_prototype.Ffi as Ffi
use rdma_prototype.Ffi.{Ptr, null}
use rdma_prototype.Machine.{Machine, At, Exec, zoom, resume}
use rdma_prototype.Machine.Logic.{Concludes, Concludes-bind}
use rdma_prototype.Libfabric.{Libfabric}
use rdma_prototype.Transport.Handle.{open_into}
use rdma_prototype.Transport.Slot.{Slot, Bytes}
use rdma_prototype.Transport.Connection.{unwrap}
use rdma_prototype.Transport.Connection.Setup as Setup
use rdma_prototype.Shim.Objects.{Store, Domain, Mr, Op, up, put}
use rdma_prototype.Shim.Backing.{Backed}
use rdma_prototype.Shim.Setup.Opened.{Failing, mr_register-Answers, op_create-Answers}
use rdma_prototype.Shim.Setup.SettingUp.{open_into-Concludes}

-- A registration and an operation as their functions make them.
abbrev pub new_mr : (raw domain access : ℕ) → Bytes → Mr
new_mr raw domain access bytes = record {
  raw = raw;
  domain = domain;
  buffer = bytes.ptr;
  capacity = bytes.len;
  pending = 0;
  access = access;
}

abbrev pub new_op : ℕ → Op
new_op id = record { id = id; direction = 0; len = 0; cq = null; mr = null; next = null }

module _ {M : Machine} {L : Libfabric} (backed : Backed M L) (fails : Failing L) where
  -- The rule for a part of an object.
  pub zoom-Concludes :
      {T P : Type 0} (Q : T → Store L → Type 0) (get : T → P) (put : P → T → T)
      (m : Exec (At M P) Unit) (s : At M T)
      → Concludes
          (λ _ u. Q (put u.self s.self) (backed.store u.env.world))
          (m (record { self = get s.self; env = s.env }))
      → Concludes (λ _ u. Q u.self (backed.store u.env.world)) (zoom M get put m s)
  zoom-Concludes {T = T} {P = P} Q get put m s h =
      let r = m (record { self = get s.self; env = s.env }) in go r.0 r.1 h
    where
      go :
          (r : Outcome Unit) (t : At M P)
          → Concludes (λ _ (u : At M P). Q (put u.self s.self) (backed.store u.env.world)) (r, t)
          → let u : At M T = record { self = put t.self s.self; env = t.env } in
            Concludes (λ _ (u : At M T). Q u.self (backed.store u.env.world)) (r, u)
      go (ok a) t h = h
      go (err e) t h = tt
      go panic t h = h
      go unfinished t h = h

  unwrap-Concludes :
      {S A B : Type 0} (P : B → S → Type 0) (o : Option A) (a : A) (f : A → Exec S B) (s : S)
      → o ≡ some a
      → Concludes P (f a s)
      → Concludes P (resume (unwrap o) f s)
  unfolding unwrap
  unwrap-Concludes P o a f s h k = rw h k

  -- One round of the loop over the slots.
  pub register-Concludes :
      (Q : Slot → Store L → Type 0) (domain access id : ℕ) (b : Bytes) (d : Domain) (s : At M Slot)
      → s.self.bytes ≡ some b
      → domain ≢ null
      → (backed.store s.env.world).next ≢ null
      → (backed.store s.env.world).domains domain ≡ some d
      → ((raw : Ptr) (w : L.World)
          → let m = backed.store s.env.world in
            Q
              (record s.self { mr = m.next; op = m.next + 1 })
              (record m {
                world = w;
                next = m.next + 1 + 1;
                mrs = put m.next (some (new_mr raw domain access b)) m.mrs;
                ops = put (m.next + 1) (some (new_op id)) m.ops;
                domains = put domain (some (record d { children = up d.children })) m.domains;
              }))
      → Concludes (λ _ u. Q u.self (backed.store u.env.world)) (Setup.register M domain access id s)
  unfolding Setup.register unwrap
  register-Concludes Q domain access id b d s hb nd nn hd k =
      let m = backed.store s.env.world in
      let Half : Slot → Store L → Type 0 = λ slot t.
        (t.next ≢ null)
        × ((w : L.World)
            → Q (record slot { op = t.next })
                (record t {
                  world = w;
                  next = t.next + 1;
                  ops = put t.next (some (new_op id)) t.ops;
                })) in
      let first : Exec (At M Slot) Unit =
        open_into M (λ p s. record s { mr = p }) (Ffi.mr_register domain b.ptr b.len access)
          "shim_mr_register" in
      let second : Exec (At M Slot) Unit =
        open_into M (λ p s. record s { op = p }) (Ffi.op_create id) "shim_op_create" in
      unwrap-Concludes (λ _ u. Q u.self (backed.store u.env.world)) s.self.bytes b _ s hb
        (Concludes-bind (λ _ u. Half u.self (backed.store u.env.world))
          (λ _ u. Q u.self (backed.store u.env.world)) first (λ _. second) s
          (open_into-Concludes backed fails Half (λ p s. record s { mr = p })
            (Ffi.mr_register domain b.ptr b.len access) "shim_mr_register" s
            (mr_register-Answers fails _ domain b.ptr b.len access d m nd nn hd
              (λ raw w. (λ e. omega (arith, e), λ w. k raw w))))
          (λ _ u half.
            open_into-Concludes backed fails Q (λ p s. record s { op = p }) (Ffi.op_create id)
              "shim_op_create" u
              (op_create-Answers fails _ id (backed.store u.env.world) half.0 half.1)))
