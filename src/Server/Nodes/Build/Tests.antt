-- ===== src/Server/Nodes/Build/Tests.antt =====
-- Requests for a forwarding node and for REALITY nodes.
use gost_webui.Prelude.{
  ℕ, ◌≤◌, ◌<◌, ◌≡◌, ◌≢◌, refl, true, false, Option, none, some, arith, string_eq, nat_eq,
}
use gost_webui.Prelude.Int.{pos, int_eq}
use gost_webui.Model.{Node, zero_node}
use gost_webui.Model.Text.{to_lower, trim_space}
use gost_webui.Singbox.{valid_server_name}
use gost_webui.Server.Nodes.{
  NodeInput, LinkInfo, Env, ok, random_port, pick_free_port, valid_hostname,
}
use gost_webui.Server.Nodes.Ports.{DrawsFit, pick_free_port_lem}
use gost_webui.Server.Nodes.Common.{apply_common, chosen_port, checked_quota, checked_rate, is_port}
use gost_webui.Server.Nodes.Build.{build_node, build_link_node}
use gost_webui.Server.Nodes.Common.Accepted.{IsAccepted}
use gost_webui.Server.Nodes.Build.Fits.{build_node_lem}

abbrev pub a_link : LinkInfo
a_link = record { scheme = "vless"; name = "n"; host = "b.example"; port = pos 443; udp = false }

abbrev pub draw : ℕ → Option ℕ
draw i = some 7

abbrev pub an_env : Env
an_env = record {
  now = 1000;
  draws = draw;
  fresh_id = "a";
  fresh_token = "t";
  fresh_password = "p";
  port_free = λ p. true;
  is_ip = λ s. false;
  parse_link = λ l. some a_link;
  client_url = λ n host port. some "url";
  has_reality = true;
}

abbrev pub a_request : NodeInput
a_request = record {
  name = "n";
  link = "vless://";
  listen_port = pos 8388;
  udp = none;
  target_host = "";
  target_port = pos 0;
  sni = "";
  host = "";
  enabled = none;
  mode = "";
  gost_local = false;
  gost_protocol = "";
  gost_transport = "";
  gost_username = "";
  gost_cipher = "";
  gost_password = "";
  gost_path = "";
  reality_uuid = "";
  reality_priv = "";
  reality_pub = "";
  reality_short_id = "";
  reality_sni = "";
  reality_ip_mode = "";
  quota = none;
  rate = none;
  conn_limit = pos 0;
}

abbrev pub made : Node
made = record zero_node {
  id = "a";
  sub_token = "t";
  mode = "link";
  landing_link = "vless://";
  protocol = "vless";
  name = "n";
  target_host = "b.example";
  target_port = pos 443;
  listen_port = pos 8388;
  enabled = true;
}

pub builds : build_node an_env a_request none ≡ ok made
unfolding build_node build_link_node apply_common chosen_port checked_quota checked_rate is_port
    to_lower trim_space valid_hostname
builds = refl

few : DrawsFit draw
few i n e = ground (arith, e)

build_node_lem_example : IsAccepted an_env none made
build_node_lem_example = build_node_lem an_env a_request none made few tt builds

pick_free_port_lem_example :
    ((p : ℕ)
      → pick_free_port an_env ≡ some p
      → (10000 ≤ p)
        × (p ≤ 60000)
        × (an_env.port_free (pos p) ≡ true)
        × ((k : ℕ) × (k < 50)
            × (p ≡ random_port 10000 (an_env.draws k))
            × ((j : ℕ)
                → j < k
                → an_env.port_free (pos (random_port 10000 (an_env.draws j))) ≡ false)))
    × (pick_free_port an_env ≡ none
        → (j : ℕ) → j < 50
        → an_env.port_free (pos (random_port 10000 (an_env.draws j))) ≡ false)
pick_free_port_lem_example = pick_free_port_lem an_env few

abbrev half_keys : NodeInput
half_keys = record a_request { mode = "reality"; reality_sni = "example.com"; reality_priv = "key" }

valid : valid_server_name (to_lower (trim_space half_keys.reality_sni)) ≡ true
unfolding to_lower trim_space valid_server_name
valid = refl

trimmed : trim_space "key" ≡ "key"
unfolding trim_space
trimmed = refl

empty : trim_space "" ≡ ""
unfolding trim_space
empty = refl

given : trim_space half_keys.reality_priv ≢ ""
given = rw trimmed (λ e. cc)
