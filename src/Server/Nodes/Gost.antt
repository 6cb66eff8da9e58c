-- ===== src/Server/Nodes/Gost.antt =====
-- internal/server/handlers_nodes.go: buildGostNode. `old` is none for a new node.
pub mod Checks
use Prim.Native.String.{◌++◌}
use gost_webui.Prelude.{
  ℕ, String, Bool, false, not, ◌&&◌, ◌||◌, Option, none, some, List, [], ◌∷◌, ◌==◌, string_eq,
  nat_eq, if◌then◌else◌,
}
use gost_webui.Prelude.Int.{ℤ, int_eq}
use gost_webui.Model.{Node}
use gost_webui.Model.Text.{to_lower, to_upper, trim_space, codes}
use gost_webui.Gostmgr.Protocol.{
  GostProtocol, GostTransport, protocol_spec, transport_spec, validate_gost_node, NodeError,
}
use gost_webui.Server.Nodes.{
  NodeInput, Env, Checked, ok, bad, ◌>>=◌, ◌>>◌, bad_target_port, bad_target_host, no_target_host,
  bad_protocol, bad_transport, bad_cipher, bad_combination, bad_url,
}
use gost_webui.Server.Nodes.Common.{or_default, new_node_base, is_port, is_address, apply_common}

-- `buildGostNode`.
starts_with_slash : List ℕ → Bool
starts_with_slash [] = false
starts_with_slash (c ∷ cs) = c == b'/'

with_slash : String → String
unfolding starts_with_slash
with_slash p = if p == "" || starts_with_slash (codes p) then p else "/" ++ p

is_cipher : String → Bool
is_cipher c = c == "aes-128-gcm" || c == "aes-256-gcm" || c == "chacha20-ietf-poly1305"

old_gost : (Node → String) → Option Node → String
old_gost field none = ""
old_gost field (some old) = if old.mode == "gost" then field old else ""

is_ssh_channel : String → Bool
is_ssh_channel t = t == "ssh" || t == "sshd"

checked_cipher : String → String → Checked String
unfolding is_cipher
checked_cipher auth asked =
    let cipher = or_default asked "aes-256-gcm" in
    if auth == "ss" then (if is_cipher cipher then ok cipher else bad bad_cipher) else ok ""

-- The name and the password of a gost node.
credentials : Env → NodeInput → Option Node → String → String → String × String
unfolding old_gost is_ssh_channel
credentials env in_ old auth transport =
    let user = trim_space in_.gost_username in
    let password = trim_space in_.gost_password in
    let user' =
      if (auth == "userpass" || auth == "user" || is_ssh_channel transport) && user == ""
      then or_default (old_gost (λ o. o.gost_username) old) "gost"
      else user in
    let password' =
      or_default password (or_default (old_gost (λ o. o.gost_password) old) env.fresh_password) in
    if auth == "ss" || auth == "userpass" || is_ssh_channel transport
    then (user', password')
    else if auth == "none"
    then ("", "")
    else (user', "")

gost_name : NodeInput → String
gost_name in_ =
    if not (trim_space in_.name == "")
    then trim_space in_.name
    else if in_.gost_local
    then "GOST-本机落地"
    else "GOST-" ++ trim_space in_.target_host

known_protocol : Option GostProtocol → Checked GostProtocol
known_protocol none = bad bad_protocol
known_protocol (some p) = ok p

known_transport : Option GostTransport → Checked (Unit {0})
known_transport none = bad bad_transport
known_transport (some t) = ok tt

-- Where a gost node's traffic goes.
target_of : Env → NodeInput → Node → Checked (String × ℤ)
unfolding is_port
target_of env in_ n =
    let host = trim_space in_.target_host in
    if n.gost_local
    then ok ("127.0.0.1", n.listen_port)
    else if host == ""
    then bad no_target_host
    else if not (is_address env host)
    then bad bad_target_host
    else if not (is_port in_.target_port)
    then bad bad_target_port
    else ok (host, in_.target_port)

no_error : Option NodeError → Checked (Unit {0})
no_error none = ok tt
no_error (some e) = bad bad_combination

printed : Option String → Checked String
printed none = bad bad_url
printed (some url) = ok url

-- The node before the fields of `applyCommon`.
gost_draft : Env → NodeInput → Option Node → String → String → String → String × String → Node
unfolding new_node_base with_slash gost_name
gost_draft env in_ old protocol transport cipher who = record (new_node_base env old) {
  mode = "gost";
  gost_local = in_.gost_local;
  gost_protocol = protocol;
  gost_transport = transport;
  gost_username = who.0;
  gost_cipher = cipher;
  gost_password = who.1;
  gost_path = with_slash (trim_space in_.gost_path);
  protocol = to_upper protocol ++ ("+" ++ to_upper transport);
  name = gost_name in_;
}

unfoldable pub build_gost_node : Env → NodeInput → Option Node → Checked Node
unfolding known_protocol known_transport checked_cipher credentials gost_draft target_of no_error
    printed
build_gost_node env in_ old = do
  let protocol = or_default (to_lower (trim_space in_.gost_protocol)) "ss"
  spec ← known_protocol (protocol_spec protocol)
  let transport = or_default (to_lower (trim_space in_.gost_transport)) spec.default_transport
  known_transport (transport_spec transport)
  cipher ← checked_cipher spec.auth (trim_space in_.gost_cipher)
  let who = credentials env in_ old spec.auth transport
  n ← apply_common env in_ old false (gost_draft env in_ old protocol transport cipher who)
  target ← target_of env in_ n
  let n' = record n { target_host = target.0; target_port = target.1 }
  no_error (validate_gost_node n')
  landing ← printed (env.client_url n' n'.target_host n'.target_port)
  ok (record n' { landing_link = landing })
