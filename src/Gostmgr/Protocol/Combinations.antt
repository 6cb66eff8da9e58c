-- ===== src/Gostmgr/Protocol/Combinations.antt =====
-- What is known of a node that `ValidateGostNode` accepts.
use gost_webui.Prelude.{
  String, ◌≡◌, ◌⊎◌, sym, ap, ◌∙◌, true, none, some, List, [], ◌∷◌, ◌==◌, string_eq, eq_iff, arith,
  Option-cases, Bool-cases, inl, inr,
}
use gost_webui.Model.{Node}
use gost_webui.Model.Text.{to_lower, trim_space}
use gost_webui.Gostmgr.Protocol.{
  GostProtocol, GostTransport, find_protocol, find_transport, protocol_spec, transport_spec,
  node_gost_protocol, node_gost_transport, validate_gost_node, combine_error, spec_error,
}

value-find_protocol :
    (v : String) (ps : List GostProtocol) (p : GostProtocol)
    → find_protocol v ps ≡ some p
    → p.value ≡ v
unfolding find_protocol
value-find_protocol v [] p h = cc
value-find_protocol v (q ∷ ps) p h = elim (Bool-cases (q.value == v)) [
  | inl same ↦
      let e : some q ≡ some p = rw same at h in
      let qp : q ≡ p = cc in ap (λ (r : GostProtocol). r.value) (sym qp) ∙ (eq_iff q.value v).0 same
  | inr other ↦ value-find_protocol v ps p (rw other at h)
]

value-find_transport :
    (v : String) (ts : List GostTransport) (t : GostTransport)
    → find_transport v ts ≡ some t
    → t.value ≡ v
unfolding find_transport
value-find_transport v [] t h = cc
value-find_transport v (u ∷ ts) t h = elim (Bool-cases (u.value == v)) [
  | inl same ↦
      let e : some u ≡ some t = rw same at h in
      let ut : u ≡ t = cc in
      ap (λ (r : GostTransport). r.value) (sym ut) ∙ (eq_iff u.value v).0 same
  | inr other ↦ value-find_transport v ts t (rw other at h)
]

-- What the checks establish of a node's protocol p and channel t.
pub record Fits (n : Node) (p : GostProtocol) (t : GostTransport) : Type 0 where
  -- raw packets only leave the panel's own machine
  pub local : t.local_only ≡ true → n.gost_local ≡ true
  -- the UDP channel carries Shadowsocks UDP or relay, and Shadowsocks UDP nothing else
  pub udp : t.value ≡ "udp" → (p.value ≡ "ssu") ⊎ (p.value ≡ "relay")
  pub ssu : p.value ≡ "ssu" → t.value ≡ "udp"
  pub http2 : p.value ≡ "http2" → t.value ≡ "http2"
  -- a second UDP service goes with Shadowsocks on a channel over TCP, so its port is free
  pub extra : n.udp ≡ true → (p.value ≡ "ss") × (t.network ≡ "tcp")

combine_error-Fits :
    (n : Node) (p : GostProtocol) (t : GostTransport) → combine_error n p t ≡ none → Fits n p t
unfolding combine_error
combine_error-Fits n p t h = record {
  local = λ q. ground (arith, h);
  udp = λ q. ground (arith, h, eq_iff t.value "udp", eq_iff p.value "ssu", eq_iff p.value "relay");
  ssu = λ q. ground (arith, h, eq_iff t.value "udp", eq_iff p.value "ssu", eq_iff p.value "relay");
  http2 = λ q. ground (arith, h, eq_iff p.value "http2", eq_iff t.value "http2");
  extra = λ q. ground (arith, h, eq_iff p.value "ss", eq_iff t.network "tcp");
}

-- A node that is accepted has a known protocol and a known channel, and they fit.
pub validate_gost_node-Fits :
    (n : Node)
    → validate_gost_node n ≡ none
    → (p : GostProtocol) × (t : GostTransport) × (protocol_spec (node_gost_protocol n) ≡ some p)
      × (transport_spec (node_gost_transport n) ≡ some t)
      × (p.value ≡ to_lower (trim_space (node_gost_protocol n)))
      × (t.value ≡ to_lower (trim_space (node_gost_transport n)))
      × Fits n p t
unfolding validate_gost_node spec_error protocol_spec transport_spec
validate_gost_node-Fits n h = elim (Option-cases (protocol_spec (node_gost_protocol n))) [
  | inl unknown ↦ absurd (cc (rw unknown at h))
  | inr (p, known) ↦ elim (Option-cases (transport_spec (node_gost_transport n))) [
    | inl unknown ↦ absurd (cc (rw (known, unknown) at h))
    | inr (t, found) ↦ (
      p,
      t,
      known,
      found,
      value-find_protocol _ _ p known,
      value-find_transport _ _ t found,
      combine_error-Fits n p t (rw (known, found) at h),
    )
  ]
]
