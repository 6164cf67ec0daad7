-- ===== src/Transport/Info.antt =====
-- src/transport.rs: `Info`.
use rdma_prototype.Base.{
  ℕ, List, [], ◌∷◌, Bool, true, false, ◌||◌, Option, none, some, ◌==◌, if◌then◌else◌,
}
use rdma_prototype.Outcome.{err, message}
use rdma_prototype.Ffi.{Ptr, null, info_open}
use rdma_prototype.Machine.{Machine, Env, Exec, pure, raise, ◌>>◌, construct, do_info_free}
use rdma_prototype.Transport.Handle.{open_into}

pub record Info : Type 0 where
  pub raw : Ptr

-- `CString::new` fails on an interior NUL.
unfoldable pub has_nul : List ℕ → Bool
has_nul [] = false
has_nul (c ∷ s) = c == 0 || has_nul s

unfoldable pub option_has_nul : Option (List ℕ) → Bool
unfolding has_nul
option_has_nul none = false
option_has_nul (some s) = has_nul s

module _ (M : Machine) where
  unfoldable pub drop : Info → Env M → Env M
  drop info e = (do_info_free M info.raw e).1

  unfoldable pub query : List ℕ → List ℕ → Option (List ℕ) → Bool → Exec (Env M) Info
  unfolding option_has_nul drop open_into construct
  query ip port domain is_source = do
    if has_nul ip then raise (err (message "IP contains NUL")) else pure tt
    if has_nul port then raise (err (message "port contains NUL")) else pure tt
    if option_has_nul domain then raise (err (message "domain contains NUL")) else pure tt
    construct M (record { raw = null }) drop
        (open_into M (λ p i. record i { raw = p }) (info_open ip port domain is_source)
          "shim_info_open")

  -- `Info::local`
  unfoldable pub local : List ℕ → List ℕ → Option (List ℕ) → Exec (Env M) Info
  unfolding query
  local ip port domain = query ip port domain true

  -- `Info::remote`
  unfoldable pub remote : List ℕ → List ℕ → Option (List ℕ) → Exec (Env M) Info
  unfolding query
  remote ip port domain = query ip port domain false
