-- ===== src/Server/Nodes/Build.antt =====
-- internal/server/handlers_nodes.go and handlers_reality.go: buildNode, buildLinkNode and
-- buildRealityNode. `old` is none
-- for a new node.
mod Tests
pub mod Fits
use Prim.Native.String.{◌++◌}
use gost_webui.Prelude.{
  String, true, false, not, ◌&&◌, ◌||◌, Option, none, some, List, ◌∷◌, ◌==◌, string_eq, nat_eq,
  if◌then◌else◌,
}
use gost_webui.Prelude.Int.{ℤ, pos, int_eq}
use gost_webui.Model.{Node, is_reality, normalize_ip_mode}
use gost_webui.Model.Text.{to_lower, trim_space, itoa}
use gost_webui.Singbox.{valid_server_name}
use gost_webui.Server.Nodes.{
  NodeInput, LinkInfo, Env, Checked, ok, bad, ◌>>=◌, ◌>>◌, refuse_if, bad_mode, no_link, bad_link,
  bad_target_port, bad_target_host, no_singbox, bad_server_name, bad_ip_mode, no_uuid, no_keys,
  no_short_id, crash,
}
use gost_webui.Server.Nodes.Common.{or_default, new_node_base, is_port, is_address, apply_common}
use gost_webui.Server.Nodes.Gost.{build_gost_node}

-- `buildLinkNode`.
link_name : NodeInput → LinkInfo → String
link_name in_ info =
    if not (trim_space in_.name == "")
    then trim_space in_.name
    else if not (info.name == "")
    then info.name ++ "-中转"
    else "中转-" ++ (info.host ++ (":" ++ itoa info.port))

-- `DisplayScheme` of internal/link/link.go.
display_scheme : String → String
display_scheme s = if s == "hy2" then "hysteria2" else if s == "ss" then "shadowsocks" else s

abbrev or_zero : ℤ → ℤ → ℤ
or_zero p d = if p == pos 0 then d else p

parsed : Option LinkInfo → Checked LinkInfo
parsed none = bad bad_link
parsed (some info) = ok info

unfoldable pub build_link_node : Env → NodeInput → Option Node → Checked Node
unfolding new_node_base link_name parsed is_port display_scheme
build_link_node env in_ old = do
  refuse_if (trim_space in_.link == "") no_link
  info ← parsed (env.parse_link in_.link)
  let n : Node = record (new_node_base env old) {
    mode = "link";
    landing_link = trim_space in_.link;
    protocol = display_scheme info.scheme;
    name = link_name in_ info;
    target_host = or_default (trim_space in_.target_host) info.host;
    target_port = or_zero in_.target_port info.port;
    sni = trim_space in_.sni;
    host = trim_space in_.host;
  }
  refuse_if (not (is_port n.target_port)) bad_target_port
  refuse_if (not (is_address env n.target_host)) bad_target_host
  apply_common env in_ old info.udp n

-- `buildRealityNode`.
old_ip_mode : Option Node → String
old_ip_mode none = "auto"
old_ip_mode (some old) = if is_reality old then normalize_ip_mode old.reality_ip_mode else "auto"

chosen_ip_mode : String → Option Node → Checked String
unfolding old_ip_mode
chosen_ip_mode asked old =
    if asked == ""
    then ok (old_ip_mode old)
    else if asked == "auto" || asked == "ipv4" || asked == "ipv6"
    then ok asked
    else bad bad_ip_mode

-- The key pair, with what an old REALITY node keeps.
kept : (Node → String) → String → Option Node → String
kept field asked none = asked
kept field asked (some old) = if is_reality old then or_default asked (field old) else asked

chosen_pub : String → String → Option Node → Checked String
chosen_pub priv pub_ none = if not (priv == "") && pub_ == "" then bad crash else ok pub_
chosen_pub priv pub_ (some old) =
    ok (if not (priv == "") && pub_ == "" then old.reality_pub else pub_)

reality_draft :
    Env → NodeInput → Option Node → String → String → String × String → String → String → Node
unfolding new_node_base
reality_draft env in_ old sni uuid keys short ip_mode = record (new_node_base env old) {
  mode = "reality";
  protocol = "VLESS+REALITY";
  gost_local = true;
  udp = false;
  reality_sni = sni;
  reality_uuid = uuid;
  reality_priv = keys.0;
  reality_pub = keys.1;
  reality_short_id = short;
  reality_ip_mode = ip_mode;
  name = if trim_space in_.name == "" then "REALITY-" ++ sni else trim_space in_.name;
  target_host = "";
  target_port = pos 0;
}

unfoldable pub build_reality_node : Env → NodeInput → Option Node → Checked Node
unfolding chosen_ip_mode kept chosen_pub reality_draft
build_reality_node env in_ old = do
  refuse_if (not env.has_reality) no_singbox
  let sni = to_lower (trim_space in_.reality_sni)
  refuse_if (not (valid_server_name sni)) bad_server_name
  ip_mode ← chosen_ip_mode (to_lower (trim_space in_.reality_ip_mode)) old
  let priv = kept (λ o. o.reality_priv) (trim_space in_.reality_priv) old
  let uuid = kept (λ o. o.reality_uuid) (trim_space in_.reality_uuid) old
  let short = kept (λ o. o.reality_short_id) (to_lower (trim_space in_.reality_short_id)) old
  key ← chosen_pub priv (trim_space in_.reality_pub) old
  refuse_if (uuid == "") no_uuid
  refuse_if (priv == "" || key == "") no_keys
  refuse_if (short == "") no_short_id
  refuse_if (sni == "") bad_server_name
  apply_common env in_ old false (reality_draft env in_ old sni uuid (priv, key) short ip_mode)

unfoldable pub build_node : Env → NodeInput → Option Node → Checked Node
build_node env in_ old =
    let mode = or_default (to_lower (trim_space in_.mode)) "link" in
    if mode == "gost"
    then build_gost_node env in_ old
    else if mode == "reality"
    then build_reality_node env in_ old
    else if mode == "link"
    then build_link_node env in_ old
    else bad bad_mode
