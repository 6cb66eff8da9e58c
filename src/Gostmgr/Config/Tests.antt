-- ===== src/Gostmgr/Config/Tests.antt =====
-- The configuration of a local Shadowsocks node with a quota.
use gost_webui.Prelude.{◌≡◌, refl, true, none, some, [], ◌∷◌, inr}
use gost_webui.Prelude.Int.{pos}
use gost_webui.Model.{Node, zero_node}
use gost_webui.Model.Text.{to_lower, trim_space}
use gost_webui.Gostmgr.Protocol.{
  GostProtocol, GostTransport, find_protocol, find_transport, gost_protocols, gost_transports,
  protocol_spec, transport_spec, node_gost_protocol, node_gost_transport, validate_gost_node,
  combine_error,
}
use gost_webui.Gostmgr.Protocol.Combinations.{Fits, validate_gost_node-Fits}
use gost_webui.Gostmgr.Schema.{Windows, BuildOptions}
use gost_webui.Gostmgr.Config.{build_config}
use gost_webui.Gostmgr.Config.Names.{IsStored, names, configured_names, names-build_config}
use gost_webui.Gostmgr.Config.Closed.{AllServed, build_config-AllServed}

abbrev ss_node : Node
ss_node = record zero_node {
  id = "a";
  enabled = true;
  mode = "gost";
  gost_local = true;
  udp = true;
  listen_port = pos 8388;
  gost_protocol = "ss";
  gost_transport = "tcp";
  quota = record { enabled = true; period = "daily"; bytes = pos 1000; direction = "total" };
}

abbrev options : BuildOptions
options = record {
  api_addr = "127.0.0.1:18080";
  api_user = "u";
  api_pass = "p";
  quota_file = "q.json";
  log_level = "";
}

abbrev windows : Windows
windows = record { day = ("d0", "d1"); month = ("m0", "m1") }

ss_accepted : validate_gost_node ss_node ≡ none
unfolding validate_gost_node protocol_spec transport_spec node_gost_protocol node_gost_transport
    find_protocol find_transport gost_protocols gost_transports combine_error to_lower trim_space
ss_accepted = refl

ss-IsStored : IsStored ss_node
unfolding to_lower trim_space
ss-IsStored = record { normal = inr refl; accepted = λ q. ss_accepted }

names-build_config_example :
    names (build_config windows options (ss_node ∷ [])).services ≡ configured_names (ss_node ∷ [])
names-build_config_example = names-build_config windows options (ss_node ∷ []) (ss-IsStored, tt)

build_config-AllServed_example : AllServed (build_config windows options (ss_node ∷ []))
build_config-AllServed_example = build_config-AllServed windows options (ss_node ∷ [])

validate_gost_node-Fits_example :
    (p : GostProtocol) × (t : GostTransport) × (protocol_spec (node_gost_protocol ss_node) ≡ some p)
    × (transport_spec (node_gost_transport ss_node) ≡ some t)
    × (p.value ≡ to_lower (trim_space (node_gost_protocol ss_node)))
    × (t.value ≡ to_lower (trim_space (node_gost_transport ss_node)))
    × Fits ss_node p t
validate_gost_node-Fits_example = validate_gost_node-Fits ss_node ss_accepted
