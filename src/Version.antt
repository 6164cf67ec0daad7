-- ===== src/Version.antt =====
-- src/fabric.rs: `runtime_fabric_version` and `print_info`.
use rdma_prototype.Base.{
  ℕ, ◌+◌, ◌*◌, ◌/◌, ◌%◌, ◌^◌, ◌<◌, ◌≡◌, List, Option, arith, is_zero, if◌then◌else◌,
}
use rdma_prototype.Outcome.{err, message, print_failed}
use rdma_prototype.Ffi.{print_info as print_call}
use rdma_prototype.Machine.{Machine, Env, Exec, pure, raise, ◌>>=◌, ◌>>◌, do_status}
use rdma_prototype.Transport.Info.{has_nul, option_has_nul}

-- `(version >> 16, version & 0xFFFF)` on a `u32`
unfoldable pub split_version : ℕ → ℕ × ℕ
split_version version = (version / 2 ^ 16, version % 2 ^ 16)

-- The two parts of a `u32` fit 16 bits each, and give it back.
pub split_version_parts :
    (version : ℕ)
    → version < 2 ^ 32
    → ((split_version version).0 < 2 ^ 16)
      × ((split_version version).1 < 2 ^ 16)
      × ((split_version version).0 * 2 ^ 16 + (split_version version).1 ≡ version)
unfolding split_version
split_version_parts version h = omega arith

module _ (M : Machine) where
  unfoldable pub runtime_fabric_version : ℕ × ℕ
  unfolding split_version
  runtime_fabric_version = split_version M.fabric_version

  unfoldable pub print_info : List ℕ → Option (List ℕ) → Exec (Env M) Unit
  print_info ip domain = do
    if has_nul ip then raise (err (message "local_ip include NUL ")) else pure tt
    if option_has_nul domain then raise (err (message "domain_name include NUL ")) else pure tt
    ret ← do_status M (print_call ip domain)
    if is_zero ret then pure tt else raise (err (print_failed ret))
