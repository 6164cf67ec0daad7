-- ===== src/Shim/Querying.antt =====
-- naive/fabric_shim.c: `shim_info_open`, `shim_info_free` and `shim_print_info`, which ask libfabric
-- for configurations, and the functions on codes and the version. What is printed is left out.
use rdma_prototype.Base.{
  ℕ, ◌+◌, ◌*◌, ◌^◌, ℤ, pos, negsuc, List, [], ◌∷◌, Option, none, some, Bool, true, false, not, ◌&&◌,
  is_zero, ◌==◌, bytes_eq, if◌then◌else◌,
}
use Prim.Native.Nat.{bit_and, bit_or}
use rdma_prototype.Outcome.{Outcome, ok, panic}
use rdma_prototype.Ffi.{Ptr, null}
use rdma_prototype.Machine.{Exec, pure, raise, ◌>>=◌, ◌>>◌}
use rdma_prototype.Libfabric.{
  Libfabric, FiInfo, Candidate, Query, einval, enomem, enodata, eagain, fi_msg, fi_ep_msg,
  fi_sockaddr_in, fi_source, fi_mr_local, fi_mr_allocated,
}
use rdma_prototype.Shim.Objects.{Store, infos, at, insert, free, calloc}
use rdma_prototype.Shim.Opening.{refuse}
use rdma_prototype.Shim.Polling.{same_code}

-- `s[0] == '\0'`
abbrev pub is_empty : List ℕ → Bool
is_empty [] = true
is_empty (b ∷ bs) = false

-- `domain_name != NULL && domain_name[0] == '\0'`
abbrev pub is_empty_name : Option (List ℕ) → Bool
is_empty_name none = false
is_empty_name (some name) = is_empty name

abbrev pub is_there : {A : Type 0} → Option A → Bool
is_there none = false
is_there (some a) = true

-- `p != NULL && strcmp(p, text) == 0`
abbrev pub is_text : List ℕ → Option (List ℕ) → Bool
is_text text none = false
is_text text (some s) = bytes_eq s text

-- "verbs"
abbrev pub verbs : List ℕ
verbs = 118 ∷ 101 ∷ 114 ∷ 98 ∷ 115 ∷ []

-- The `if`s of the loop over the results that look at one attribute.
unfoldable pub is_complete : Candidate → Bool
is_complete p =
    is_there p.fabric_attr && is_there p.domain_attr && is_there p.ep_attr && p.tx_attr && p.rx_attr

unfoldable pub is_verbs : Candidate → Bool
is_verbs p = elim p.fabric_attr [ none ↦ false | some prov_name ↦ is_text verbs prov_name ]

unfoldable pub is_in_domain : Option (List ℕ) → Candidate → Bool
is_in_domain none p = true
is_in_domain (some domain_name) p = elim p.domain_attr [
  | none ↦ false
  | some name ↦ is_text domain_name name
]

unfoldable pub has_address : Bool → Candidate → Bool
has_address is_source p =
    if is_source
    then not (p.src_addr == null) && not (p.src_addrlen == 0)
    else not (p.dest_addr == null) && not (p.dest_addrlen == 0)

-- `results`, or NULL for an empty list
abbrev pub head : List Candidate → Ptr
head [] = null
head (p ∷ rest) = p.raw

module _ (L : Libfabric) where
  unfoldable pub is_message : Candidate → Bool
  is_message p = elim p.ep_attr [
    | none ↦ false
    | some type ↦
        type == L.flag fi_ep_msg
        && not (bit_and p.caps (L.flag fi_msg) == 0)
        && p.addr_format == L.flag fi_sockaddr_in
  ]

  -- The results that no `continue` leaves out.
  unfoldable pub suits : Option (List ℕ) → Bool → Candidate → Bool
  suits domain_name is_source p =
      is_complete p
      && is_verbs p
      && is_message p
      && is_in_domain domain_name p
      && has_address is_source p

  -- The loop, which leaves `selected`.
  unfoldable pub select : Option (List ℕ) → Bool → List Candidate → Option Candidate
  select domain_name is_source [] = none
  select domain_name is_source (p ∷ rest) =
      if suits domain_name is_source p then some p else select domain_name is_source rest

  -- `copy_string`; none is NULL.
  unfoldable pub copy_string : List ℕ → Exec (Store L) (Option (List ℕ))
  copy_string s t =
      let (room, w) = L.has_memory t.world in
      (ok (if room then some s else none), record t { world = w })

  abbrev pub alloc_info : Exec (Store L) Ptr
  alloc_info s = let (p, w) = L.alloc_info s.world in (ok p, record s { world = w })

  abbrev pub free_info : Ptr → Exec (Store L) Unit
  free_info p s = (ok tt, record s { world = L.free_info p s.world })

  -- `if(results != NULL){fi_freeinfo(results);}`
  abbrev pub free_results : List Candidate → Exec (Store L) Unit
  free_results results = if head results == null then pure tt else free_info (head results)

  abbrev pub get_info : Query → Exec (Store L) (ℤ × List Candidate)
  get_info q s =
      let (code, results, w) = L.get_info q s.world in (ok (code, results), record s { world = w })

  abbrev pub dup_info : Ptr → Exec (Store L) (Option FiInfo)
  dup_info p s = let (copy, w) = L.dup_info p s.world in (ok copy, record s { world = w })

  -- The names of the hints, or that there is no memory for one.
  unfoldable pub hint_names : Option (List ℕ) → Exec (Store L) (Option (List ℕ × Option (List ℕ)))
  unfolding copy_string
  hint_names domain_name = do
    prov_name ← copy_string verbs
    elim prov_name [
      | none ↦ pure none
      | some prov_name ↦ elim domain_name [
        | none ↦ pure (some (prov_name, none))
        | some domain_name ↦ do
          name ← copy_string domain_name
          elim name [ none ↦ pure none | some name ↦ pure (some (prov_name, some name)) ]
      ]
    ]

  -- `FI_VERSION(1, 11)`
  abbrev pub api_version : ℕ
  api_version = 1 * 2 ^ 16 + 11

  -- From the names to the query: its code, and what it leaves in `results`.
  unfoldable pub query_results :
      (node : List ℕ) (service domain_name : Option (List ℕ)) (flags : ℕ)
      → Exec (Store L) (ℤ × List Candidate)
  unfolding hint_names
  query_results node service domain_name flags = do
    names ← hint_names domain_name
    elim names [
      | none ↦ pure (L.code enomem, [])
      | some names ↦ get_info (record {
        version = api_version;
        node = node;
        service = service;
        flags = flags;
        hints = record {
          caps = L.flag fi_msg;
          ep_type = L.flag fi_ep_msg;
          addr_format = L.flag fi_sockaddr_in;
          mr_mode = bit_or (L.flag fi_mr_local) (L.flag fi_mr_allocated);
          prov_name = names.0;
          domain_name = names.1;
        };
      })
    ]

  -- From the loop to the label `cleanup`: `ret`, and what `*out` is.
  unfoldable pub keep_copy : Option Candidate → Exec (Store L) (ℤ × Ptr)
  keep_copy none = refuse L enodata
  keep_copy (some selected) = do
    wrapper ← calloc L
    if wrapper == null then refuse L enomem else do
      copy ← dup_info selected.raw
      elim copy [
        | none ↦ refuse L enomem
        | some copy ↦ do insert L (infos L) wrapper copy; pure (pos 0, wrapper)
      ]

  -- `is_source` is 0 or 1, and the strings are not NULL, as in every call of the transport.
  unfoldable pub info_open :
      (node service : List ℕ) (domain_name : Option (List ℕ)) (is_source : Bool)
      → Exec (Store L) (ℤ × Ptr)
  info_open node service domain_name is_source =
      if is_empty node
      then refuse L einval
      else if is_empty service
      then refuse L einval
      else if is_empty_name domain_name
      then refuse L einval
      else do
        hints ← alloc_info
        if hints == null then refuse L enomem else do
          got ←
              query_results node (some service) domain_name
                (if is_source then L.flag fi_source else 0)
          answer ←
              (if is_zero got.0
                then keep_copy (select domain_name is_source got.1)
                else pure (got.0, null))
          free_results got.1
          free_info hints
          pure answer

  unfoldable pub info_free : Ptr → Exec (Store L) Unit
  info_free info = if info == null then pure tt else do
    i ← at L (infos L) info
    if i.raw == null then pure tt else free_info i.raw
    free L (infos L) info

  -- The loop that prints the candidates: their attributes are read without a test.
  unfoldable pub printed : List Candidate → Outcome Unit
  printed [] = ok tt
  printed (p ∷ rest) = if is_complete p then printed rest else panic

  unfoldable pub print_info : (local_ip : List ℕ) (domain_name : Option (List ℕ)) → Exec (Store L) ℤ
  print_info local_ip domain_name = if is_empty local_ip then pure (L.code einval) else do
    hints ← alloc_info
    if hints == null then pure (L.code enomem) else do
      got ← query_results local_ip none domain_name (L.flag fi_source)
      if is_zero got.0 then raise (printed got.1) else pure tt
      free_results got.1
      free_info hints
      pure got.0

  abbrev pub fabric_version : ℕ
  fabric_version = L.version

  -- "invalid error code"
  abbrev pub invalid_error : List ℕ
  invalid_error =
      105 ∷ 110 ∷ 118 ∷ 97 ∷ 108 ∷ 105 ∷ 100 ∷ 32 ∷ 101 ∷ 114 ∷ 114 ∷ 111 ∷ 114 ∷ 32 ∷ 99 ∷ 111
      ∷ 100 ∷ 101 ∷ []

  -- `INT32_MIN` is -(2^31 - 1 + 1).
  unfoldable pub error_string : ℤ → List ℕ
  error_string (pos n) = L.strerror (pos n)
  error_string (negsuc n) = if n + 1 == 2 ^ 31 then invalid_error else L.strerror (pos (n + 1))

  unfoldable pub error_is_again : ℤ → ℤ
  error_is_again error = if same_code error (L.code eagain) then pos 1 else pos 0
