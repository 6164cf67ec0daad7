-- ===== src/Shim/Setup/SettingUp.antt =====
-- The opens of `initialize` of src/transport.rs on naive/fabric_shim.c, one by one.
use rdma_prototype.Base.{ap, Bool-cases, inl, inr, ℤ, String, ◌≡◌, refl, some, is_zero, arith}
use rdma_prototype.Outcome.{Outcome, ok, err, panic, unfinished}
use rdma_prototype.Ffi as Ffi
use rdma_prototype.Ffi.{Ptr, null, Open}
use rdma_prototype.Machine.{Machine, At, check}
use rdma_prototype.Machine.Logic.{Concludes}
use rdma_prototype.Libfabric.{Libfabric, FiInfo}
use rdma_prototype.Transport.Handle.{open_into}
use rdma_prototype.Transport.Connection.{Connection}
use rdma_prototype.Shim.Objects.{Store, up, put, put-same}
use rdma_prototype.Shim.Linking.{shim_open}
use rdma_prototype.Shim.Backing.{Backed, memory, Serves}
use rdma_prototype.Shim.Setup.Opened.{Failing, Answers, domain_open-Answers, eq_open-Answers}
use rdma_prototype.Shim.Setup.Stages.{Ready, HasDomain, HasEq}

module _ {M : Machine} {L : Libfabric} (backed : Backed M L) (fails : Failing L) where
  -- The rule for an open.
  pub open_into-Concludes :
      {T : Type 0} (Q : T → Store L → Type 0) (put : Ptr → T → T) (function : Open) (name : String)
      (s : At M T)
      → Answers (λ p t. Q (put p s.self) t) (shim_open L function (backed.store s.env.world))
      → Concludes (λ _ u. Q u.self (backed.store u.env.world)) (open_into M put function name s)
  unfolding open_into check
  open_into-Concludes {T = T} Q put function name s h =
      let shim = shim_open L function (backed.store s.env.world) in
      go shim.0 shim.1 (backed.open_handle function s.env.world) h
    where
      go :
          (r : Outcome (ℤ × Ptr)) (t : Store L)
          → Serves backed.store
              (let (code, p, u) = M.open_handle function s.env.world in ((code, p), u))
              (r, t)
          → Answers (λ p t. Q (put p s.self) t) (r, t)
          → Concludes (λ _ u. Q u.self (backed.store u.env.world)) (open_into M put function name s)
      go (ok (code, p)) t serves answers =
          let same_code : (M.open_handle function s.env.world).0 ≡ code = ap (λ x. x.0) serves.0 in
          let same_handle : (M.open_handle function s.env.world).1 ≡ p = ap (λ x. x.1) serves.0 in
          elim (Bool-cases (is_zero code)) [
            | inl zero ↦ rw (same_code, zero) (rw (same_handle, serves.1) (answers zero))
            | inr failed ↦ rw (same_code, failed) tt
          ]
      go (err e) t serves answers = absurd answers
      go panic t serves answers = absurd answers
      go unfinished t serves answers = absurd answers

  module _ (info : Ptr) (i : FiInfo) where
    pub domain-Concludes :
        (s : At M Connection)
        → Ready info i s.self (memory backed s)
        → Concludes
            (λ _ u.
              (u.self.fabric ≡ s.self.fabric)
              × Ready info i u.self (memory backed u)
              × HasDomain 0 u.self (memory backed u))
            (open_into M
              (λ p c. record c { domain = p })
              (Ffi.domain_open s.self.fabric.raw info)
              "shim_domain_open"
              s)
    domain-Concludes s (nn, nf, ni, (f, hf), hi, tx, rx) =
        open_into-Concludes (λ c t. (c.fabric ≡ s.self.fabric) × Ready info i c t × HasDomain 0 c t)
          (λ p c. record c { domain = p }) (Ffi.domain_open s.self.fabric.raw info)
          "shim_domain_open" s
          (domain_open-Answers fails _ s.self.fabric.raw info f i (memory backed s) nf ni nn hf hi
            (λ raw w. (
              refl,
              (
                λ e. omega (arith, e),
                nf,
                ni,
                (
                  _,
                  put-same s.self.fabric.raw (some (record f { children = up f.children }))
                      (memory backed s).fabrics,
                ),
                hi,
                tx,
                rx,
              ),
              (
                nn,
                (
                  _,
                  put-same (memory backed s).next
                      (some (record { raw = raw; fabric = s.self.fabric.raw; children = 0 }))
                      (memory backed s).domains,
                  refl,
                  refl,
                ),
              ),
            )))

    pub eq-Concludes :
        (s : At M Connection)
        → Ready info i s.self (memory backed s)
        → HasDomain 0 s.self (memory backed s)
        → Concludes
            (λ _ u.
              Ready info i u.self (memory backed u)
              × HasDomain 0 u.self (memory backed u)
              × HasEq 0 u.self (memory backed u))
            (open_into M
              (λ p c. record c { eq = p })
              (Ffi.eq_open s.self.fabric.raw)
              "shim_eq_open"
              s)
    eq-Concludes s (nn, nf, ni, (f, hf), hi, tx, rx) hd =
        open_into-Concludes (λ c t. Ready info i c t × HasDomain 0 c t × HasEq 0 c t)
          (λ p c. record c { eq = p }) (Ffi.eq_open s.self.fabric.raw) "shim_eq_open" s
          (eq_open-Answers fails _ s.self.fabric.raw f (memory backed s) nf nn hf (λ raw w. (
            (
              λ e. omega (arith, e),
              nf,
              ni,
              (
                _,
                put-same s.self.fabric.raw (some (record f { children = up f.children }))
                    (memory backed s).fabrics,
              ),
              hi,
              tx,
              rx,
            ),
            hd,
            (
              nn,
              (
                _,
                put-same (memory backed s).next
                    (some (record { raw = raw; fabric = s.self.fabric.raw; users = 0 }))
                    (memory backed s).eqs,
                refl,
                refl,
              ),
            ),
          )))
