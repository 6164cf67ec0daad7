-- ===== src/Examples/ShimQueries.antt =====
-- The queries and the connection events of the shim, over a libfabric with two configurations and a
-- request.
use rdma_prototype.Base.{◌+◌, [], ◌∷◌, ◌≡◌, refl, pos, true, some, none}
use rdma_prototype.Libfabric.{Libfabric, Candidate, fi_connreq}
use rdma_prototype.Shim.Objects.{Store}
use rdma_prototype.Shim.Setup.Opened.{Failing}
use rdma_prototype.Shim.Querying.{
  info_open, query_results, hint_names, copy_string, keep_copy, select, suits, is_complete,
  is_verbs, is_message, is_in_domain, has_address, verbs,
}
use rdma_prototype.Shim.Info.Lookup.{InfoOpened, info_open-InfoOpened}
use rdma_prototype.Shim.Listening.{eq_poll}
use rdma_prototype.Shim.Info.Requests.{Owns, eq_poll-Owns}
use rdma_prototype.Examples.ShimBench.{obliging, objects, request_object}

abbrev other_provider : Candidate
other_provider = record {
  raw = 70;
  caps = 1;
  addr_format = 1;
  src_addr = 5;
  src_addrlen = 16;
  dest_addr = 0;
  dest_addrlen = 0;
  fabric_attr = some (some (116 ∷ 99 ∷ 112 ∷ []));
  domain_attr = some none;
  ep_attr = some 1;
  tx_attr = true;
  rx_attr = true;
}

abbrev verbs_provider : Candidate
verbs_provider = record other_provider { raw = 71; fabric_attr = some (some verbs) }

abbrev asked : Libfabric
asked = record obliging {
  get_info = λ q w. (pos 0, other_provider ∷ verbs_provider ∷ [], w);
  dup_info = λ p w. (some (record request_object { raw = p + 1 }), w);
  eq_read = λ q w. (pos 24, fi_connreq, record { context = some 3; info = some request_object }, w);
}

abbrev store : Store asked
store = record {
  world = 0;
  next = 20;
  infos = λ p. none;
  fabrics = objects.fabrics;
  domains = objects.domains;
  eqs = objects.eqs;
  cqs = objects.cqs;
  listeners = objects.listeners;
  endpoints = objects.endpoints;
  mrs = objects.mrs;
  ops = objects.ops;
}

asked_fails : Failing asked
asked_fails e = refl

info_open-InfoOpened_example :
    InfoOpened asked_fails
      (49 ∷ [])
      (50 ∷ [])
      none
      true
      store
      (info_open asked (49 ∷ []) (50 ∷ []) none true store)
info_open-InfoOpened_example = info_open-InfoOpened asked_fails (49 ∷ []) (50 ∷ []) none true store

-- The second configuration is kept.
kept_second :
    (info_open asked (49 ∷ []) (50 ∷ []) none true store).1.infos 20
    ≡ some (record request_object { raw = 72 })
unfolding info_open query_results hint_names copy_string keep_copy select suits is_complete is_verbs
    is_message is_in_domain has_address
kept_second = refl

eq_poll-Owns_example : Owns 20 store (eq_poll asked 3 store)
eq_poll-Owns_example = eq_poll-Owns 3 (record { raw = 3; fabric = 1; users = 1 }) store refl
