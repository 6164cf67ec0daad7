-- ===== src/Shim/Info/Selection.antt =====
-- naive/fabric_shim.c: the query and the selection of `shim_info_open`.
use rdma_prototype.Base.{
  ◌++◌, ℕ, ℤ, pos, Bool, true, false, List, [], ◌∷◌, Option, some, none, ◌≡◌, refl, ◌⊎◌, inl, inr,
  ◌==◌, Bool-cases, Option-cases, is_zero, if◌then◌else◌, ap,
}
use rdma_prototype.Outcome.{Outcome, ok, err, panic, unfinished}
use rdma_prototype.Ffi.{Ptr, null}
use rdma_prototype.Libfabric.{Libfabric, FiInfo, Candidate, Query, enomem, enodata, fi_source}
use rdma_prototype.Shim.Objects.{Store, put}
use rdma_prototype.Shim.Querying.{
  suits, select, keep_copy, query_results, hint_names, copy_string, verbs,
}
use rdma_prototype.Shim.Setup.Opened.{Failing}

module _ (L : Libfabric) (domain_name : Option (List ℕ)) (is_source : Bool) where
  -- None of the results is accepted.
  abbrev pub NoneSuits : List Candidate → Type 0
  NoneSuits [] = Unit
  NoneSuits (p ∷ rest) = (suits L domain_name is_source p ≡ false) × NoneSuits rest

  -- The first result that is accepted.
  abbrev pub IsFirst : Candidate → List Candidate → Type 0
  IsFirst p results =
      (before : List Candidate) × (after : List Candidate) × (results ≡ before ++ p ∷ after)
      × NoneSuits before
      × (suits L domain_name is_source p ≡ true)

  abbrev pub Selects : Option Candidate → List Candidate → Type 0
  Selects none results = NoneSuits results
  Selects (some p) results = IsFirst p results

  passed :
      (p : Candidate) (rest : List Candidate) (found : Option Candidate)
      → suits L domain_name is_source p ≡ false
      → Selects found rest
      → Selects found (p ∷ rest)
  passed p rest none h k = (h, k)
  passed p rest (some q) h (before, after, same, skipped, fits) =
      (p ∷ before, after, ap (λ xs. p ∷ xs) same, (h, skipped), fits)

  pub select-Selects :
      (results : List Candidate) → Selects (select L domain_name is_source results) results
  unfolding select
  select-Selects [] = tt
  select-Selects (p ∷ rest) = elim (Bool-cases (suits L domain_name is_source p)) [
    | inl fits ↦ rw fits ([], rest, refl, tt, fits)
    | inr misfit ↦
        rw misfit (passed p rest (select L domain_name is_source rest) misfit (select-Selects rest))
  ]

-- What a query has done: it fails, or it has asked libfabric for what it was given, with the provider
-- and the domain in the hints.
abbrev pub Queried :
    (L : Libfabric) (node : List ℕ) (service domain_name : Option (List ℕ)) (flags : ℕ)
    → Store L
    → Outcome (ℤ × List Candidate) × Store L
    → Type 0
Queried L node service domain_name flags s (ok (code, results), t) =
    ((w : L.World) × (t ≡ record s { world = w }))
    × ((is_zero code ≡ false)
        ⊎ ((q : Query) × (w : L.World) × (q.node ≡ node)
            × (q.service ≡ service)
            × (q.flags ≡ flags)
            × (q.hints.domain_name ≡ domain_name)
            × (q.hints.prov_name ≡ verbs)
            × ((L.get_info q w).0 ≡ code)
            × ((L.get_info q w).1 ≡ results)))
Queried L node service domain_name flags s (err e, t) = ⊥
Queried L node service domain_name flags s (panic, t) = ⊥
Queried L node service domain_name flags s (unfinished, t) = ⊥

-- What a query has asked and found.
abbrev pub Found :
    (L : Libfabric) (node service : List ℕ) (domain_name : Option (List ℕ)) (is_source : Bool)
    → List Candidate
    → Type 0
Found L node service domain_name is_source results =
    (q : Query) × (w : L.World) × (q.node ≡ node)
    × (q.service ≡ some service)
    × (q.flags ≡ (if is_source then L.flag fi_source else 0))
    × (q.hints.domain_name ≡ domain_name)
    × (q.hints.prov_name ≡ verbs)
    × ((L.get_info q w).1 ≡ results)

module _ {L : Libfabric} (fails : Failing L) where
  pub query_results-Queried :
      (node : List ℕ) (service domain_name : Option (List ℕ)) (flags : ℕ) (s : Store L)
      → Queried L node service domain_name flags s
          (query_results L node service domain_name flags s)
  unfolding query_results hint_names copy_string
  query_results-Queried node service none flags s = elim (Bool-cases (L.has_memory s.world).0) [
    | inl room ↦ rw room ((_, refl), inr (_, _, refl, refl, refl, refl, refl, refl, refl))
    | inr full ↦ rw full ((_, refl), inl (fails enomem))
  ]
  query_results-Queried node service (some name) flags s =
      elim (Bool-cases (L.has_memory s.world).0) [
        | inr full ↦ rw full ((_, refl), inl (fails enomem))
        | inl room ↦ rw room (elim (Bool-cases (L.has_memory (L.has_memory s.world).1).0) [
          | inl more ↦ rw more ((_, refl), inr (_, _, refl, refl, refl, refl, refl, refl, refl))
          | inr full ↦ rw full ((_, refl), inl (fails enomem))
        ])
      ]

  -- Nothing is kept, or a copy of the selected result is, at a new address.
  abbrev pub Kept : Option Candidate → Store L → Outcome (ℤ × Ptr) × Store L → Type 0
  Kept selected s (ok (code, p), t) =
      ((is_zero code ≡ false) × (p ≡ null) × (t.infos ≡ s.infos))
      ⊎ ((code ≡ pos 0)
          × (p ≡ s.next)
          × ((first : Candidate) × (copy : FiInfo) × (w : L.World) × (selected ≡ some first)
              × ((L.dup_info first.raw w).0 ≡ some copy)
              × (t.infos ≡ put s.next (some copy) s.infos)))
  Kept selected s (err e, t) = ⊥
  Kept selected s (panic, t) = ⊥
  Kept selected s (unfinished, t) = ⊥

  pub keep_copy-Kept :
      (selected : Option Candidate) (s : Store L) → Kept selected s (keep_copy L selected s)
  unfolding keep_copy
  keep_copy-Kept none s = inl (fails enodata, refl, refl)
  keep_copy-Kept (some first) s = elim (Bool-cases (L.has_memory s.world).0) [
    | inr full ↦ rw full (inl (fails enomem, refl, refl))
    | inl room ↦ rw room (elim (Bool-cases (s.next == null)) [
      | inl nil ↦ rw nil (inl (fails enomem, refl, refl))
      | inr fresh ↦
          rw fresh (elim (Option-cases (L.dup_info first.raw (L.has_memory s.world).1).0) [
            | inl gone ↦ rw gone (inl (fails enomem, refl, refl))
            | inr (copy, there) ↦ rw there (inr (refl, refl, (first, copy, _, refl, there, refl)))
          ])
    ])
  ]
