-- ===== src/Transport/Handle/Safety.antt =====
-- src/transport.rs: `check` and the opens against a panic.
use rdma_prototype.Base.{ℤ, is_zero, ◌∷◌, String, Bool-cases, inl, inr}
use rdma_prototype.Ffi.{Ptr, Open}
use rdma_prototype.Machine.{Machine, At, Call, check}
use rdma_prototype.Machine.Safety.{Safe, Preserves}
use rdma_prototype.Transport.Handle.{open_into}

module _ (M : Machine) where
  check-Safe :
      {T : Type 0} (I : T → Type 0) (code : ℤ) (name : String) (t : T)
      → I t
      → Safe (λ _ u. I u) I (check M code name, t)
  unfolding check
  check-Safe I code name t h = elim (Bool-cases (is_zero code)) [
    | inl zero_code ↦ rw zero_code h
    | inr failed_code ↦ rw failed_code h
  ]

  -- An open that keeps a property of its object.
  pub open_into-Preserves :
      {T : Type 0} (I : T → Type 0) (put : Ptr → T → T) (function : Open) (name : String)
      → ((p : Ptr) (t : T) → I t → I (put p t))
      → Preserves (λ (s : At M T). I s.self) (open_into M put function name)
  unfolding open_into
  open_into-Preserves {T} I put function name keep s h =
      let (code, p, w) = M.open_handle function s.env.world in
      let after : At M T = record {
        self = put p s.self;
        env = record { world = w; trace = Call.opened function code p ∷ s.env.trace };
      } in
      check-Safe (λ (s : At M T). I s.self) code name after (keep p s.self h)
