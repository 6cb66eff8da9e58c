-- ===== src/Server/Nodes/Gost/Checks.antt =====
-- A gost node that is accepted has passed its checks.
use gost_webui.Prelude.{
  ◌≡◌, refl, ◌∙◌, inl, inr, String, false, not, Option, none, some, Bool-cases, arith, ◌==◌,
  string_eq,
}
use gost_webui.Prelude.Int.{ℤ, pos, int_eq}
use gost_webui.Model.{Node}
use gost_webui.Model.Text.{to_lower, trim_space}
use gost_webui.Model.Text.Normal.{lower_trim_idem}
use gost_webui.Gostmgr.Protocol.{
  node_gost_protocol, node_gost_transport, combine_error, protocol_spec, transport_spec,
  validate_gost_node, NodeError,
}
use gost_webui.Server.Nodes.{NodeInput, Env, ok, bad, Gives, Gives-if, >>=-Gives, bad_target_port}
use gost_webui.Server.Nodes.Ports.{DrawsFit}
use gost_webui.Server.Nodes.Common.{or_default, apply_common, is_port, is_address}
use gost_webui.Server.Nodes.Common.Numbers.{IsPort, OldFits, is_port-IsPort}
use gost_webui.Server.Nodes.Common.Sound.{IsCommon, apply_common-IsCommon}
use gost_webui.Server.Nodes.Common.Accepted.{
  id_of, IsAccepted, new_node_base-id, base_quota, base_rate, base_pid, after,
}
use gost_webui.Server.Nodes.Gost.{
  known_protocol, known_transport, checked_cipher, credentials, gost_draft, target_of, no_error,
  printed, build_gost_node,
}

normal_protocol :
    (x : String) → let p = or_default (to_lower (trim_space x)) "ss" in to_lower (trim_space p) ≡ p
normal_protocol x = elim (Bool-cases (to_lower (trim_space x) == "")) [
  | inl empty ↦ rw empty (unfold to_lower trim_space in refl)
  | inr given ↦ rw given (lower_trim_idem x)
]

validate_landing :
    (n : Node) (l : String)
    → validate_gost_node (record n { landing_link = l }) ≡ validate_gost_node n
unfolding validate_gost_node node_gost_transport node_gost_protocol combine_error
validate_landing n l = refl

no_error-Gives : (e : Option NodeError) → Gives (no_error e) (λ _. e ≡ none)
unfolding no_error
no_error-Gives none = refl
no_error-Gives (some e) = tt

target_of-IsPort :
    (env : Env) (in_ : NodeInput) (n : Node)
    → IsPort n.listen_port
    → Gives (target_of env in_ n) (λ t. IsPort t.1)
unfolding target_of
target_of-IsPort env in_ n port =
    let P : String × ℤ → Type 0 = λ t. IsPort t.1 in
    let host = trim_space in_.target_host in
    Gives-if P n.gost_local _ _ (λ _. port)
      (λ _.
        Gives-if P (host == "") _ _ (λ _. tt)
          (λ _.
            Gives-if P (not (is_address env host)) _ _ (λ _. tt)
              (λ _.
                Gives-if P (not (is_port in_.target_port)) (bad bad_target_port)
                  (ok (host, in_.target_port)) (λ _. tt)
                  (λ good. is_port-IsPort in_.target_port (ground (arith, good))))))

gost-IsAccepted :
    (env : Env) (old : Option Node) (n n' : Node) (host : String) (port : ℤ) (landing : String)
    → n.id ≡ id_of env old
    → n.mode ≡ "gost"
    → to_lower (trim_space n.gost_protocol) ≡ n.gost_protocol
    → IsPort port
    → n.counter_pid ≡ pos 0
    → IsCommon env old n n'
    → validate_gost_node (record n' { target_host = host; target_port = port }) ≡ none
    → IsAccepted env old
        (record n' { target_host = host; target_port = port; landing_link = landing })
gost-IsAccepted env old n n' host port landing id mode protocol target pid c valid = record {
  counter_pid = c.kind.counter_pid ∙ pid;
  id = c.kind.id ∙ id;
  port = c.port;
  quota = c.quota;
  rate = record { in_bps = c.rate.in_bps; out_bps = c.rate.out_bps; some_bps = c.rate.some_bps };
  conns = c.conns;
  mode = inl (c.kind.mode ∙ mode);
  target = inr target;
  stored = record {
    normal = inr (rw c.kind.gost_protocol protocol);
    accepted = λ _.
        validate_landing (record n' { target_host = host; target_port = port }) landing ∙ valid;
  };
}

module _ (env : Env) (in_ : NodeInput) (old : Option Node) (fit : DrawsFit env.draws)
    (fits : OldFits old) where
  pub build_gost_node-IsAccepted : Gives (build_gost_node env in_ old) (IsAccepted env old)
  unfolding build_gost_node gost_draft
  build_gost_node-IsAccepted =
      let Q = IsAccepted env old in
      let protocol = or_default (to_lower (trim_space in_.gost_protocol)) "ss" in
      after env in_ old fit fits (known_protocol (protocol_spec protocol)) _ (λ spec.
        let transport =
          or_default (to_lower (trim_space in_.gost_transport)) spec.default_transport in
        after env in_ old fit fits (known_transport (transport_spec transport)) _ (λ _.
          after env in_ old fit fits (checked_cipher spec.auth (trim_space in_.gost_cipher)) _
            (λ cipher.
              let who = credentials env in_ old spec.auth transport in
              let n = gost_draft env in_ old protocol transport cipher who in
              >>=-Gives (IsCommon env old n) Q (apply_common env in_ old false n) _
                (apply_common-IsCommon env in_ old false n fit fits (base_quota env old)
                  (base_rate env old))
                (λ n' c.
                  >>=-Gives (λ t. IsPort t.1) Q (target_of env in_ n') _
                    (target_of-IsPort env in_ n' c.port)
                    (λ t port.
                      let n'' : Node = record n' { target_host = t.0; target_port = t.1 } in
                      >>=-Gives (λ _. validate_gost_node n'' ≡ none) Q
                        (no_error (validate_gost_node n'')) _
                        (no_error-Gives (validate_gost_node n''))
                        (λ _ valid.
                          after env in_ old fit fits (printed (env.client_url n'' t.0 t.1)) _
                            (λ landing.
                              gost-IsAccepted env old n n' t.0 t.1 landing
                                (new_node_base-id env old) refl (normal_protocol in_.gost_protocol)
                                port (base_pid env old) c valid)))))))
