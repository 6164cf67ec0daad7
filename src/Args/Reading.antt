-- ===== src/Args/Reading.antt =====
-- src/bin/clients.rs and src/bin/server.rs: what `main` makes of each command line.
use rdma_prototype.Base.{
  ◌≡◌, ℕ, ◌≤◌, ◌<◌, List, [], ◌∷◌, none, some, String, arith, ◌⊎◌, inl, inr, Option-cases,
  Bool-cases,
}
use rdma_prototype.Outcome.{Outcome, ok, err, message, Returns}
use rdma_prototype.Args.{Settings, settings, parse_u64, timeout_of, in_range}

-- "7471"
abbrev pub default_port : List ℕ
default_port = b'7' ∷ b'4' ∷ b'7' ∷ b'1' ∷ []

-- The milliseconds of the longest timeout.
abbrev pub longest : ℕ
longest = 3600000

-- The usage of both programs, `<ip> [port=7471] [domain] [timeout-seconds=30]`, with the errors.
pub data Reads (usage : String) : List (List ℕ) → Outcome Settings → Type 0 where
  nothing : Reads usage [] (err (message usage))
  address :
      (ip : List ℕ)
      → Reads usage
          (ip ∷ [])
          (ok (record { ip = ip; port = default_port; domain = none; seconds = 30 }))
  with_port :
      (ip port : List ℕ)
      → Reads usage
          (ip ∷ port ∷ [])
          (ok (record { ip = ip; port = port; domain = none; seconds = 30 }))
  with_domain :
      (ip port domain : List ℕ)
      → Reads usage
          (ip ∷ port ∷ domain ∷ [])
          (ok (record { ip = ip; port = port; domain = some domain; seconds = 30 }))
  with_timeout :
      (ip port domain text : List ℕ) (n : ℕ)
      → parse_u64 text ≡ some n
      → 1 ≤ n
      → n ≤ 3600
      → Reads usage
          (ip ∷ port ∷ domain ∷ text ∷ [])
          (ok (record { ip = ip; port = port; domain = some domain; seconds = n }))
  not_a_number :
      (ip port domain text : List ℕ)
      → parse_u64 text ≡ none
      → Reads usage (ip ∷ port ∷ domain ∷ text ∷ []) (err (message "invalid timeout"))
  out_of_range :
      (ip port domain text : List ℕ) (n : ℕ)
      → parse_u64 text ≡ some n
      → (n ≡ 0) ⊎ (3600 < n)
      → Reads usage
          (ip ∷ port ∷ domain ∷ text ∷ [])
          (err (message "timeout must be between 1 and 3600 seconds"))
  too_many :
      (ip port domain text more : List ℕ) (rest : List (List ℕ))
      → Reads usage (ip ∷ port ∷ domain ∷ text ∷ more ∷ rest) (err (message usage))

module _ (usage : String) where
  -- With four arguments the timeout decides.
  timed :
      (ip port domain text : List ℕ)
      → let args = ip ∷ port ∷ domain ∷ text ∷ [] in
        (r : Outcome Settings) × (settings usage args ≡ r) × Reads usage args r
  unfolding settings timeout_of in_range
  timed ip port domain text = elim (Option-cases (parse_u64 text)) [
    | inl bad ↦ (_, ground arith, not_a_number ip port domain text bad)
    | inr (n, e) ↦ elim (Bool-cases (in_range n)) [
      | inl good ↦
          (_, ground arith, with_timeout ip port domain text n e (ground arith) (ground arith))
      | inr bad ↦ (_, ground arith, out_of_range ip port domain text n e (ground arith))
    ]
  ]

  refused :
      (ip port domain text more : List ℕ) (rest : List (List ℕ))
      → settings usage (ip ∷ port ∷ domain ∷ text ∷ more ∷ rest) ≡ err (message usage)
  unfolding settings
  refused ip port domain text more rest = ground arith

  few :
      (ip port domain : List ℕ)
      → Reads usage [] (settings usage [])
        × Reads usage (ip ∷ []) (settings usage (ip ∷ []))
        × Reads usage (ip ∷ port ∷ []) (settings usage (ip ∷ port ∷ []))
        × Reads usage (ip ∷ port ∷ domain ∷ []) (settings usage (ip ∷ port ∷ domain ∷ []))
  unfolding settings timeout_of
  few ip port domain = (nothing, address ip, with_port ip port, with_domain ip port domain)

  pub settings-Reads : (args : List (List ℕ)) → Reads usage args (settings usage args)
  settings-Reads [] = (few [] [] []).0
  settings-Reads (ip ∷ []) = (few ip [] []).1
  settings-Reads (ip ∷ port ∷ []) = (few ip port []).2
  settings-Reads (ip ∷ port ∷ domain ∷ []) = (few ip port domain).3
  settings-Reads (ip ∷ port ∷ domain ∷ text ∷ []) =
      let (r, e, reads) = timed ip port domain text in rw e reads
  settings-Reads (ip ∷ port ∷ domain ∷ text ∷ more ∷ rest) =
      rw (refused ip port domain text more rest) (too_many ip port domain text more rest)

-- A command line is taken or refused, and never a panic.
pub Reads-Returns :
    {usage : String} {args : List (List ℕ)} {r : Outcome Settings} → Reads usage args r → Returns r
Reads-Returns nothing = tt
Reads-Returns (address ip) = tt
Reads-Returns (with_port ip port) = tt
Reads-Returns (with_domain ip port domain) = tt
Reads-Returns (with_timeout ip port domain text n e l u) = tt
Reads-Returns (not_a_number ip port domain text e) = tt
Reads-Returns (out_of_range ip port domain text n e h) = tt
Reads-Returns (too_many ip port domain text more rest) = tt
