-- ===== src/Shim/Info/Lookup.antt =====
-- naive/fabric_shim.c: the configuration that `shim_info_open` keeps.
use rdma_prototype.Base.{
  ℕ, ℤ, pos, Bool, false, List, Option, some, ◌≡◌, refl, ◌⊎◌, inl, inr, ◌∙◌, ◌==◌, Bool-cases,
  is_zero, if◌then◌else◌,
}
use rdma_prototype.Outcome.{Outcome, ok, err, panic, unfinished}
use rdma_prototype.Ffi.{Ptr, null}
use rdma_prototype.Libfabric.{Libfabric, FiInfo, Candidate, Query, enomem, einval, fi_source}
use rdma_prototype.Shim.Objects.{Store, put}
use rdma_prototype.Shim.Querying.{
  free_info, free_results, select, keep_copy, query_results, info_open, is_empty, is_empty_name,
  head, verbs,
}
use rdma_prototype.Machine.{Exec, pure, resume, ◌>>=◌, ◌>>◌}
use rdma_prototype.Shim.Setup.Opened.{Failing}
use rdma_prototype.Shim.Info.Selection.{
  IsFirst, Selects, select-Selects, Queried, Found, query_results-Queried, Kept, keep_copy-Kept,
}

module _ {L : Libfabric} (fails : Failing L) where
  module _ (node service : List ℕ) (domain_name : Option (List ℕ)) (is_source : Bool) where
    -- How `shim_info_open` ends.
    abbrev pub InfoOpened : Store L → Outcome (ℤ × Ptr) × Store L → Type 0
    InfoOpened s (ok (code, p), t) =
        ((is_zero code ≡ false) × (p ≡ null) × (t.infos ≡ s.infos))
        ⊎ ((code ≡ pos 0)
            × (p ≡ s.next)
            × ((q : Query) × (first : Candidate) × (copy : FiInfo) × (w v : L.World) × (q.node
                  ≡ node)
                × (q.service ≡ some service)
                × (q.flags ≡ (if is_source then L.flag fi_source else 0))
                × (q.hints.domain_name ≡ domain_name)
                × (q.hints.prov_name ≡ verbs)
                × IsFirst L domain_name is_source first (L.get_info q w).1
                × ((L.dup_info first.raw v).0 ≡ some copy)
                × (t.infos ≡ put s.next (some copy) s.infos)))
    InfoOpened s (err e, t) = ⊥
    InfoOpened s (panic, t) = ⊥
    InfoOpened s (unfinished, t) = ⊥

    -- After the query.
    abbrev finish_open : Ptr → ℤ × List Candidate → Exec (Store L) (ℤ × Ptr)
    finish_open hints got = do
      answer ←
          (if is_zero got.0
            then keep_copy L (select L domain_name is_source got.1)
            else pure (got.0, null))
      free_results L got.1
      free_info L hints
      pure answer

    freed :
        (results : List Candidate) (hints : Ptr) (answer : ℤ × Ptr) (s t : Store L)
        → InfoOpened s (ok answer, t)
        → InfoOpened s ((do free_results L results; free_info L hints; pure answer) t)
    freed results hints (code, p) s t h = elim (Bool-cases (head results == null)) [
      | inl nil ↦ rw nil h
      | inr live ↦ rw live h
    ]

    selected-InfoOpened :
        (hints : Ptr) (results : List Candidate) (found : Option Candidate) (s t : Store L)
        → t.next ≡ s.next
        → t.infos ≡ s.infos
        → Found L node service domain_name is_source results
        → Selects L domain_name is_source found results
        → (r : Outcome (ℤ × Ptr)) (u : Store L) → Kept fails found t (r, u)
        → InfoOpened s
            (resume r (λ answer. (do free_results L results; free_info L hints; pure answer)) u)
    selected-InfoOpened hints results found s t same_next same_infos known selects (ok (code, p)) u
          (inl (failed, nil, infos)) =
        freed results hints (code, p) s u (inl (failed, nil, infos ∙ same_infos))
    selected-InfoOpened hints results found s t same_next same_infos (q, w, hn, hs, hf, hd, hp, hr)
          selects (ok (code, p)) u (inr (one, fresh, (first, copy, v, this, dup, infos))) =
        let is_first : Selects L domain_name is_source (some first) results = rw this at selects in
        freed results hints (code, p) s u
          (inr (
            one,
            fresh ∙ same_next,
            (
              q,
              first,
              copy,
              w,
              v,
              hn,
              hs,
              hf,
              hd,
              hp,
              rw hr is_first,
              dup,
              infos ∙ rw (same_next, same_infos) refl,
            ),
          ))
    selected-InfoOpened hints results found s t same_next same_infos known selects (err e) u h = h
    selected-InfoOpened hints results found s t same_next same_infos known selects panic u h = h
    selected-InfoOpened hints results found s t same_next same_infos known selects unfinished u h =
        h

    finish_open-InfoOpened :
        (hints : Ptr) (code : ℤ) (results : List Candidate) (s t : Store L)
        → t.next ≡ s.next
        → t.infos ≡ s.infos
        → (is_zero code ≡ false) ⊎ Found L node service domain_name is_source results
        → InfoOpened s (finish_open hints (code, results) t)
    finish_open-InfoOpened hints code results s t same_next same_infos (inl failed) =
        rw failed (freed results hints (code, null) s t (inl (failed, refl, same_infos)))
    finish_open-InfoOpened hints code results s t same_next same_infos (inr known) =
        let found = select L domain_name is_source results in
        elim (Bool-cases (is_zero code)) [
          | inr failed ↦
              rw failed (freed results hints (code, null) s t (inl (failed, refl, same_infos)))
          | inl fine ↦ rw fine (
              selected-InfoOpened hints results found s t same_next same_infos known
                (select-Selects L domain_name is_source results) (keep_copy L found t).0
                (keep_copy L found t).1 (keep_copy-Kept fails found t))
        ]

    after_query-InfoOpened :
        (hints : Ptr) (s t : Store L) (r : Outcome (ℤ × List Candidate)) (u : Store L)
        → t.next ≡ s.next
        → t.infos ≡ s.infos
        → Queried L node
            (some service)
            domain_name
            (if is_source then L.flag fi_source else 0)
            t
            (r, u)
        → InfoOpened s (resume r (finish_open hints) u)
    after_query-InfoOpened hints s t (ok (code, results)) u same_next same_infos
          ((w, same), inl failed) =
        finish_open-InfoOpened hints code results s u (rw same same_next) (rw same same_infos)
          (inl failed)
    after_query-InfoOpened hints s t (ok (code, results)) u same_next same_infos
          ((w, same), inr (q, v, hn, hs, hf, hd, hp, hc, hr)) =
        finish_open-InfoOpened hints code results s u (rw same same_next) (rw same same_infos)
          (inr (q, v, hn, hs, hf, hd, hp, hr))
    after_query-InfoOpened hints s t (err e) u same_next same_infos h = h
    after_query-InfoOpened hints s t panic u same_next same_infos h = h
    after_query-InfoOpened hints s t unfinished u same_next same_infos h = h

    -- `shim_info_open` returns without undefined behaviour, where libfabric's error codes are not 0:
    -- either with a code that is not 0, no handle, and the infos as they were; or with 0 and a new
    -- handle for a copy of the first result that passes all its tests, in the answer of libfabric to a
    -- query for the node, the service and the side that it was given, with the provider "verbs" and
    -- the given domain in the hints.
    pub info_open-InfoOpened :
        (s : Store L) → InfoOpened s (info_open L node service domain_name is_source s)
    unfolding info_open
    info_open-InfoOpened s = elim (Bool-cases (is_empty node)) [
      | inl bad ↦ rw bad (inl (fails einval, refl, refl))
      | inr named ↦ rw named (elim (Bool-cases (is_empty service)) [
        | inl bad ↦ rw bad (inl (fails einval, refl, refl))
        | inr served ↦ rw served (elim (Bool-cases (is_empty_name domain_name)) [
          | inl bad ↦ rw bad (inl (fails einval, refl, refl))
          | inr fine ↦ rw fine (elim (Bool-cases ((L.alloc_info s.world).0 == null)) [
            | inl full ↦ rw full (inl (fails enomem, refl, refl))
            | inr room ↦
                let hints = (L.alloc_info s.world).0 in
                let t : Store L = record s { world = (L.alloc_info s.world).1 } in
                let query =
                  query_results L node (some service) domain_name
                    (if is_source then L.flag fi_source else 0) t in
                rw room (
                  after_query-InfoOpened hints s t query.0 query.1 refl refl (
                    query_results-Queried fails node (some service) domain_name
                      (if is_source then L.flag fi_source else 0) t))
          ])
        ])
      ])
    ]
