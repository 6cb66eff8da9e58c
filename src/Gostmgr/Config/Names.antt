-- ===== src/Gostmgr/Config/Names.antt =====
-- The names of the services in the configuration.
use gost_webui.Prelude.{
  String, ◌≡◌, ◌⊎◌, refl, sym, ap, ◌∙◌, true, false, ◌||◌, none, List, [], ◌∷◌, ◌++◌, ◌==◌,
  string_eq, eq_iff, arith, All, Bool-cases, inl, inr, if◌then◌else◌,
}
use mathlib.Core.List.{append-nil, append_assoc}
use gost_webui.Model.{Node, is_reality, service_names}
use gost_webui.Model.Text.{to_lower, trim_space}
use gost_webui.Gostmgr.Protocol.{
  transport_spec, node_gost_protocol, node_gost_transport, validate_gost_node,
}
use gost_webui.Gostmgr.Protocol.Combinations.{validate_gost_node-Fits}
use gost_webui.Gostmgr.Schema.{Service, Config, Windows, BuildOptions}
use gost_webui.Gostmgr.Config.{
  node_services, build_gost_proxy_services, relay_service, network_of, attach, add_node, add_nodes,
  build_config, is_configured,
}

-- The node's protocol is stored in the form that gost reads, or is the default; a gost node has been
-- accepted.
pub record IsStored (n : Node) : Type 0 where
  pub normal : (n.gost_protocol ≡ "") ⊎ (to_lower (trim_space n.gost_protocol) ≡ n.gost_protocol)
  pub accepted : n.mode ≡ "gost" → validate_gost_node n ≡ none

abbrev pub names : List Service → List String
names [] = []
names (s ∷ ss) = s.name ∷ names ss

is_ss_empty :
    (n : Node)
    → n.gost_protocol ≡ ""
    → (node_gost_protocol n == "ss") ≡ (n.gost_protocol == "" || n.gost_protocol == "ss")
unfolding node_gost_protocol to_lower trim_space
is_ss_empty n e = rw e refl

-- On a stored node the default is the only other spelling of "ss".
is_ss :
    (n : Node)
    → (n.gost_protocol ≡ "") ⊎ (to_lower (trim_space n.gost_protocol) ≡ n.gost_protocol)
    → (node_gost_protocol n == "ss") ≡ (n.gost_protocol == "" || n.gost_protocol == "ss")
unfolding node_gost_protocol to_lower trim_space
is_ss n (inl empty) = is_ss_empty n empty
is_ss n (inr normal) = elim (Bool-cases (trim_space n.gost_protocol == "")) [
  | inl blank ↦
      let e : n.gost_protocol ≡ "" = sym normal ∙ ap to_lower ((eq_iff _ _).0 blank) in
      is_ss_empty n e
  | inr given ↦ elim (Bool-cases (n.gost_protocol == "")) [
    | inl empty ↦ is_ss_empty n ((eq_iff _ _).0 empty)
    | inr spelt ↦ rw (given, normal, spelt) refl
  ]
]

-- With a second service for UDP, the first one listens on TCP.
udp_network :
    (n : Node)
    → n.udp ≡ true
    → validate_gost_node n ≡ none
    → network_of (transport_spec (node_gost_transport n)) ≡ "tcp"
unfolding network_of
udp_network n udp ok =
    let (p, t, known, found, pv, tv, fits) = validate_gost_node-Fits n ok in
    rw (found, (fits.extra udp).1) refl

names-node_services :
    (n : Node) → is_reality n ≡ false → IsStored n → names (node_services n) ≡ service_names n
unfolding node_services service_names relay_service build_gost_proxy_services
names-node_services n gost stored = elim (Bool-cases (n.mode == "gost")) [
  | inr link ↦ elim (Bool-cases n.gost_local) [
    | inl local ↦ rw (link, gost, local) (ground arith)
    | inr remote ↦ rw (link, gost, remote) (ground arith)
  ]
  | inl relayed ↦ elim (Bool-cases n.gost_local) [
    | inl local ↦ rw (relayed, local) (ground (arith, gost, is_ss n stored.normal))
    | inr remote ↦ elim (Bool-cases n.udp) [
      | inl udp ↦
          rw
            (
              udp_network n udp (stored.accepted ((eq_iff _ _).0 relayed)),
              relayed,
              remote,
              udp,
              gost,
            )
            refl
      | inr tcp ↦ rw (relayed, remote, tcp, gost) refl
    ]
  ]
]

names-attach :
    (qs : List String) (l c : String) (ss : List Service) → names (attach qs l c ss) ≡ names ss
unfolding attach
names-attach qs l c [] = refl
names-attach qs l c (s ∷ ss) = ap (λ xs. s.name ∷ xs) (names-attach qs l c ss)

names-append : (xs ys : List Service) → names (xs ++ ys) ≡ names xs ++ names ys
names-append [] ys = refl
names-append (x ∷ xs) ys = ap (λ zs. x.name ∷ zs) (names-append xs ys)

-- The services of all nodes that gost carries, in the order of the nodes.
pub configured_names : List Node → List String
configured_names [] = []
configured_names (n ∷ ns) = (if is_configured n then service_names n else []) ++ configured_names ns

names-add_node :
    (w : Windows) (opts : BuildOptions) (n : Node) (cfg : Config)
    → IsStored n
    → names (add_node w opts n cfg).services
      ≡ names cfg.services ++ (if is_configured n then service_names n else [])
unfolding add_node
names-add_node w opts n cfg stored = elim (Bool-cases (is_configured n)) [
  | inr skipped ↦ rw skipped (sym (append-nil _))
  | inl kept ↦
      rw (kept, names-append, names-attach, names-node_services n (ground (arith, kept)) stored)
        refl
]

names-add_nodes :
    (w : Windows) (opts : BuildOptions) (ns : List Node) (cfg : Config)
    → All IsStored ns
    → names (add_nodes w opts ns cfg).services ≡ names cfg.services ++ configured_names ns
unfolding add_nodes configured_names
names-add_nodes w opts [] cfg h = sym (append-nil _)
names-add_nodes w opts (n ∷ ns) cfg h =
    names-add_nodes w opts ns (add_node w opts n cfg) h.1
    ∙ ap (λ xs. xs ++ configured_names ns) (names-add_node w opts n cfg h.0)
    ∙ append_assoc (names cfg.services) _ (configured_names ns)

-- The configuration of stored nodes has exactly the services of `ServiceNames` of each enabled node that
-- gost carries, node by node: what the sampler asks for exists, and nothing else runs.
pub names-build_config :
    (w : Windows) (opts : BuildOptions) (ns : List Node)
    → All IsStored ns
    → names (build_config w opts ns).services ≡ configured_names ns
unfolding build_config
names-build_config w opts ns h = names-add_nodes w opts ns _ h
