-- ===== src/Server/Nodes/Build/Fits.antt =====
-- What a node that `buildNode` returns is like, and a request that it does not survive.
use gost_webui.Prelude.{
  ◌≡◌, ◌≢◌, refl, inl, inr, true, false, not, ◌||◌, Option, none, arith, ◌==◌, string_eq, eq_iff,
}
use gost_webui.Prelude.Int.{int_eq}
use gost_webui.Model.{Node}
use gost_webui.Model.Text.{to_lower, trim_space}
use gost_webui.Singbox.{valid_server_name}
use gost_webui.Server.Nodes.{
  NodeInput, Env, ok, bad, refuse_if, Gives, Gives-if, Gives-ok, >>=-Gives, no_singbox,
  bad_server_name, no_uuid, no_keys, no_short_id, crash, no_link, bad_target_port, bad_target_host,
  bad_mode,
}
use gost_webui.Server.Nodes.Ports.{DrawsFit}
use gost_webui.Server.Nodes.Common.{new_node_base, or_default, is_port, is_address}
use gost_webui.Server.Nodes.Common.Numbers.{OldFits, is_port-IsPort}
use gost_webui.Server.Nodes.Common.Sound.{refuse_if-Gives}
use gost_webui.Server.Nodes.Common.Accepted.{
  IsAccepted, new_node_base-id, base_quota, base_rate, base_pid, base_protocol, plain-IsAccepted,
  after, after_common,
}
use gost_webui.Server.Nodes.Gost.Checks.{build_gost_node-IsAccepted}
use gost_webui.Server.Nodes.Build.{
  build_link_node, build_reality_node, build_node, parsed, reality_draft, chosen_ip_mode, kept,
  chosen_pub, link_name, or_zero, display_scheme,
}

module _ (env : Env) (in_ : NodeInput) (old : Option Node) (fit : DrawsFit env.draws)
    (fits : OldFits old) where
  build_link_node-IsAccepted : Gives (build_link_node env in_ old) (IsAccepted env old)
  unfolding build_link_node
  build_link_node-IsAccepted =
      after env in_ old fit fits (refuse_if (trim_space in_.link == "") no_link) _ (λ _.
        after env in_ old fit fits (parsed (env.parse_link in_.link)) _ (λ info.
          let n : Node = record (new_node_base env old) {
            mode = "link";
            landing_link = trim_space in_.link;
            protocol = display_scheme info.scheme;
            name = link_name in_ info;
            target_host = or_default (trim_space in_.target_host) info.host;
            target_port = or_zero in_.target_port info.port;
            sni = trim_space in_.sni;
            host = trim_space in_.host;
          } in
          >>=-Gives (λ _. not (is_port n.target_port) ≡ false) (IsAccepted env old)
            (refuse_if (not (is_port n.target_port)) bad_target_port) _
            (refuse_if-Gives (not (is_port n.target_port)) bad_target_port)
            (λ _ good.
              after env in_ old fit fits
                (refuse_if (not (is_address env n.target_host)) bad_target_host) _
                (λ _.
                  after_common env in_ old fit fits n info.udp (base_quota env old)
                    (base_rate env old)
                    (λ n' c.
                      plain-IsAccepted env old n n' (new_node_base-id env old) (inr refl)
                        (inr (is_port-IsPort n.target_port (ground (arith, good))))
                        (base_protocol env old) (base_pid env old) c)))))

  build_reality_node-IsAccepted : Gives (build_reality_node env in_ old) (IsAccepted env old)
  unfolding build_reality_node reality_draft
  build_reality_node-IsAccepted =
      let sni = to_lower (trim_space in_.reality_sni) in
      let priv = kept (λ o. o.reality_priv) (trim_space in_.reality_priv) old in
      let uuid = kept (λ o. o.reality_uuid) (trim_space in_.reality_uuid) old in
      let short = kept (λ o. o.reality_short_id) (to_lower (trim_space in_.reality_short_id)) old in
      after env in_ old fit fits (refuse_if (not env.has_reality) no_singbox) _ (λ _.
        after env in_ old fit fits (refuse_if (not (valid_server_name sni)) bad_server_name) _ (λ _.
          after env in_ old fit fits
            (chosen_ip_mode (to_lower (trim_space in_.reality_ip_mode)) old) _
            (λ ip_mode.
              after env in_ old fit fits (chosen_pub priv (trim_space in_.reality_pub) old) _
                (λ key. after env in_ old fit fits (refuse_if (uuid == "") no_uuid) _ (λ _.
                  after env in_ old fit fits (refuse_if (priv == "" || key == "") no_keys) _ (λ _.
                    after env in_ old fit fits (refuse_if (short == "") no_short_id) _ (λ _.
                      after env in_ old fit fits (refuse_if (sni == "") bad_server_name) _ (λ _.
                        let n = reality_draft env in_ old sni uuid (priv, key) short ip_mode in
                        after_common env in_ old fit fits n false (base_quota env old)
                          (base_rate env old)
                          (λ n' c.
                            plain-IsAccepted env old n n' (new_node_base-id env old) (inl refl)
                              (inl refl) (base_protocol env old) (base_pid env old) c)))))))))

  build_node-IsAccepted : Gives (build_node env in_ old) (IsAccepted env old)
  unfolding build_node
  build_node-IsAccepted =
      let Q = IsAccepted env old in
      let mode = or_default (to_lower (trim_space in_.mode)) "link" in
      Gives-if Q (mode == "gost") _ _ (λ _. build_gost_node-IsAccepted env in_ old fit fits)
        (λ _.
          Gives-if Q (mode == "reality") _ _ (λ _. build_reality_node-IsAccepted)
            (λ _.
              Gives-if Q (mode == "link") _ (bad bad_mode) (λ _. build_link_node-IsAccepted)
                (λ _. tt)))

-- A node that `buildNode` returns has the id of the old one or the new id; a port number to listen on,
-- and one to send to unless it is a REALITY node; a quota and a limit of rate that are complete where they
-- count; no negative limit of connections; a known kind; and the form that gost's configuration is built
-- from. Random numbers lie below their bound, and the old node's port is one.
pub build_node_lem :
    (env : Env) (in_ : NodeInput) (old : Option Node) (n : Node)
    → DrawsFit env.draws
    → OldFits old
    → build_node env in_ old ≡ ok n
    → IsAccepted env old n
build_node_lem env in_ old n fit fits built =
    Gives-ok (IsAccepted env old) (build_node env in_ old) n built
      (build_node-IsAccepted env in_ old fit fits)

-- The request for a new REALITY node that gives a private key and no public key makes `buildRealityNode`
-- read through the nil pointer to the old node. Sing-box is there, the server name is valid, and no address
-- family is asked for.
pub build_reality_node_crash :
    (env : Env) (in_ : NodeInput)
    → env.has_reality ≡ true
    → valid_server_name (to_lower (trim_space in_.reality_sni)) ≡ true
    → trim_space in_.reality_ip_mode ≡ ""
    → trim_space in_.reality_priv ≢ ""
    → trim_space in_.reality_pub ≡ ""
    → build_reality_node env in_ none ≡ bad crash
unfolding build_reality_node kept chosen_pub chosen_ip_mode to_lower
build_reality_node_crash env in_ has valid mode priv key =
    let given : (trim_space in_.reality_priv == "") ≡ false =
      ground (arith, priv, eq_iff (trim_space in_.reality_priv) "") in
    rw (has, valid, mode, key, given) refl
