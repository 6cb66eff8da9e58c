-- ===== src/Server/Nodes/Handlers/Tests.antt =====
-- Nodes created, changed and deleted where the engines work and where they fail.
use gost_webui.Prelude.{
  ℕ, ◌≡◌, refl, String, true, false, Option, none, some, List, [], ◌∷◌, ◌==◌, string_eq, nat_eq,
  arith, if◌then◌else◌,
}
use gost_webui.Prelude.Int.{pos}
use gost_webui.Prelude.Maps.{insert, lookup}
use mathlib.Core.List.{Mem}
use gost_webui.Model.{Node, zero_node, tcp_name, udp_name, normalize_ip_mode}
use gost_webui.Model.Text.{to_lower, trim_space}
use gost_webui.Bolt.Lists.{list_bolt}
use gost_webui.Store
use gost_webui.Store.{open_new, save_node, list_nodes, sort_nodes, get_node, not_found}
use gost_webui.Gostmgr.Schema.{Windows, BuildOptions}
use gost_webui.Gostmgr.Config.{build_config}
use gost_webui.Gostmgr.Client.{upsert, delete}
use gost_webui.Gostmgr.Client.Registry.{registry, no_names}
use gost_webui.Singbox.{new_pool, apply, valid_server_name}
use gost_webui.Controller.Engine.{
  apply_gost, apply_limits, apply_services, upsert_all, clear, sync_config_file, Panel, pool_error,
  apply_reality, apply_node, remove_node, load_nodes, node, resources_of,
}
use gost_webui.Controller.Engine.Removal.{lists}
use gost_webui.Controller.Sampler.{Sampler, add64}
use gost_webui.Controller.Sampler.Reality.{Clock, EngineStats, sample_reality_node}
use gost_webui.Server.Nodes.{NodeInput, Env}
use gost_webui.Server.Nodes.Ports.{DrawsFit}
use gost_webui.Server.Nodes.Common.Numbers.{OldFits}
use gost_webui.Server.Nodes.Common.{apply_common, chosen_port, checked_quota, checked_rate, is_port}
use gost_webui.Server.Nodes.Build.{build_node, build_reality_node}
use gost_webui.Server.Nodes.Handlers.{
  update_found, update_built, apply_updated, settle_updated, create_built, apply_created,
  settle_created, failed, shown, done, handle_create_node, handle_update_node, handle_delete_node,
}
use gost_webui.Server.Nodes.Handlers.Changes.{
  handle_update_node_to_reality, handle_update_node_counts_again,
}
use gost_webui.Server.Nodes.Handlers.Rollback.{
  handle_create_node_rolled_back, handle_update_node_rolled_back, handle_delete_node_lem,
}

abbrev draw : ℕ → Option ℕ
draw i = some 7

few : DrawsFit draw
few i n e = ground (arith, e)

abbrev env : Env
env = record {
  now = 1000;
  draws = draw;
  fresh_id = "a";
  fresh_token = "t";
  fresh_password = "p";
  port_free = λ p. true;
  is_ip = λ s. false;
  parse_link = λ l.
      some
        (record { scheme = "vless"; name = "n"; host = "b.example"; port = pos 443; udp = false });
  client_url = λ n host port. some "url";
  has_reality = true;
}

abbrev request : String → NodeInput
request mode = record {
  name = "n";
  link = "vless://";
  listen_port = pos 8388;
  udp = none;
  target_host = "";
  target_port = pos 0;
  sni = "";
  host = "";
  enabled = none;
  mode = mode;
  gost_local = false;
  gost_protocol = "";
  gost_transport = "";
  gost_username = "";
  gost_cipher = "";
  gost_password = "";
  gost_path = "";
  reality_uuid = "u";
  reality_priv = "k";
  reality_pub = "p";
  reality_short_id = "s";
  reality_sni = "example.com";
  reality_ip_mode = "";
  quota = none;
  rate = none;
  conn_limit = pos 0;
}

abbrev options : BuildOptions
options = record {
  api_addr = "127.0.0.1:18080";
  api_user = "u";
  api_pass = "p";
  quota_file = "q.json";
  log_level = "";
}

abbrev windows : Windows
windows = record { day = ("d0", "d1"); month = ("m0", "m1") }

abbrev forward : Node
forward = record zero_node {
  id = "a";
  enabled = true;
  mode = "link";
  listen_port = pos 8388;
  target_host = "b";
  target_port = pos 443;
}

-- A panel in which the next configuration of sing-box cannot be written.
abbrev stuck : Panel list_bolt registry
stuck = record {
  store = open_new list_bolt [];
  gost_state = no_names;
  file = none;
  writes = [];
  nodes = [];
  pool = some (record new_pool { disk = false ∷ [] });
}

fails :
    (handle_create_node list_bolt registry env windows options (some (request "reality")) stuck).1
    ≡ failed pool_error
unfolding handle_create_node create_built build_node to_lower trim_space build_reality_node
    valid_server_name apply_common chosen_port checked_quota checked_rate is_port save_node
    apply_created settle_created apply_node apply_reality apply
fails = refl

unknown : get_node list_bolt "a" stuck.store ≡ Store.err not_found
unfolding get_node lookup
unknown = refl

handle_create_node_rolled_back_example :
    get_node list_bolt "b"
      (handle_create_node list_bolt registry env windows options
        (some (request "reality"))
        stuck).0.store
    ≡ get_node list_bolt "b" stuck.store
handle_create_node_rolled_back_example =
    handle_create_node_rolled_back list_bolt registry env windows options (request "reality") stuck
      pool_error few refl unknown fails "b"

abbrev forwarding : Panel list_bolt registry
forwarding = record stuck {
  store = (save_node list_bolt forward (open_new list_bolt [])).0;
  nodes = forward ∷ [];
}

found : node list_bolt registry "a" forwarding ≡ some forward
unfolding node
found = refl

update_fails :
    (handle_update_node list_bolt registry env windows options "a"
      (some (request "reality"))
      forwarding).1
    ≡ failed pool_error
unfolding handle_update_node update_found update_built node build_node to_lower trim_space
    build_reality_node valid_server_name apply_common chosen_port checked_quota checked_rate is_port
    save_node load_nodes list_nodes sort_nodes insert apply_updated settle_updated apply_node
    apply_reality apply
update_fails = refl

handle_update_node_rolled_back_example :
    get_node list_bolt "a"
      (handle_update_node list_bolt registry env windows options "a"
        (some (request "reality"))
        forwarding).0.store
    ≡ Store.ok forward
unfolding save_node
handle_update_node_rolled_back_example =
    handle_update_node_rolled_back list_bolt registry env windows options "a" (request "reality")
      forwarding forward pool_error found refl update_fails "a"

abbrev ready : Panel list_bolt registry
ready = record forwarding { pool = some new_pool }

abbrev changed : Node
changed = record zero_node {
  id = "a";
  sub_token = "t";
  mode = "reality";
  gost_local = true;
  protocol = "VLESS+REALITY";
  name = "n";
  listen_port = pos 8388;
  enabled = true;
  reality_uuid = "u";
  reality_priv = "k";
  reality_pub = "p";
  reality_short_id = "s";
  reality_sni = "example.com";
  reality_ip_mode = "auto";
  updated_at = 1000;
}

updates :
    (handle_update_node list_bolt registry env windows options "a"
      (some (request "reality"))
      ready).1
    ≡ shown changed
unfolding handle_update_node update_found update_built node build_node to_lower trim_space
    build_reality_node valid_server_name apply_common chosen_port checked_quota checked_rate is_port
    save_node load_nodes list_nodes sort_nodes insert apply_updated settle_updated apply_node
    apply_reality apply lookup normalize_ip_mode
updates = refl

handle_update_node_to_reality_example :
    let p' =
      (handle_update_node list_bolt registry env windows options "a"
        (some (request "reality"))
        ready).0 in
    (p'.gost_state ≡ ready.gost_state) × (p'.file ≡ ready.file)
handle_update_node_to_reality_example =
    handle_update_node_to_reality list_bolt registry env windows options "a" (request "reality")
      ready changed updates refl

-- The node whose process has counted 700 bytes in and 300 out at the last sample.
abbrev before : Node
before = record changed {
  counter_in = 700;
  counter_out = 300;
  counter_pid = pos 9;
  total_in = 700;
  total_out = 300;
}

abbrev counting : Panel list_bolt registry
counting = record ready {
  store = (save_node list_bolt before (open_new list_bolt [])).0;
  nodes = before ∷ [];
}

abbrev after : Node
after = record changed { total_in = 700; total_out = 300 }

counted : node list_bolt registry "a" counting ≡ some before
unfolding node
counted = refl

keeps_totals :
    (handle_update_node list_bolt registry env windows options "a"
      (some (request "reality"))
      counting).1
    ≡ shown after
unfolding handle_update_node update_found update_built node build_node to_lower trim_space
    build_reality_node valid_server_name apply_common chosen_port checked_quota checked_rate is_port
    save_node load_nodes list_nodes sort_nodes insert apply_updated settle_updated apply_node
    apply_reality apply lookup normalize_ip_mode
keeps_totals = refl

before-OldFits : OldFits (some before)
before-OldFits h = (8388, refl, ground arith, ground arith)

abbrev clock : Clock
clock = record { now = 2000; day_start = 0; month_start = 0 }

abbrev stats : EngineStats
stats = record { pid = pos 9; running = true; ready = true; up = 710; down = 305; conns = 0 }

abbrev sampler : Sampler list_bolt
sampler = record { store = counting.store; last = []; live = []; engine = [] }

handle_update_node_counts_again_example :
    let m = (sample_reality_node list_bolt clock 0 stats after sampler).0 in
    (m.total_in ≡ add64 700 710) × (m.total_out ≡ add64 300 305)
handle_update_node_counts_again_example =
    handle_update_node_counts_again list_bolt registry env windows options "a" (request "reality")
      counting before after few counted before-OldFits keeps_totals clock 0 stats sampler refl refl
      (ground arith) (ground arith)

abbrev running : Panel list_bolt registry
running =
    (apply_node list_bolt registry windows options forward (record forwarding { pool = none })).0

listed : node list_bolt registry "a" running ≡ some forward
unfolding node apply_node apply_gost apply_limits apply_services upsert_all clear sync_config_file
    build_config list_nodes sort_nodes upsert delete save_node insert tcp_name udp_name
listed = refl

safe : running.store.disk ≡ []
unfolding apply_node apply_gost apply_limits apply_services upsert_all clear sync_config_file
    build_config list_nodes sort_nodes upsert delete save_node insert tcp_name udp_name
safe = refl

held : get_node list_bolt "a" running.store ≡ Store.ok forward
unfolding get_node apply_node apply_gost apply_limits apply_services upsert_all clear
    sync_config_file build_config list_nodes sort_nodes upsert delete save_node insert lookup
    tcp_name udp_name
held = refl

removes : (remove_node list_bolt registry windows options forward running).1 ≡ none
unfolding apply_node remove_node build_config upsert delete save_node list_nodes sort_nodes insert
    tcp_name udp_name
removes = refl

handle_delete_node_lem_example :
    let r = handle_delete_node list_bolt registry windows options "a" running in
    (r.1 ≡ done)
    × ((k : String)
        → get_node list_bolt k r.0.store
          ≡ (if forward.id == k then Store.err not_found else get_node list_bolt k running.store))
    × ((k name : String)
        → r.0.gost_state k name
          ≡ (if lists k name (resources_of forward) then none else running.gost_state k name))
    × ((ns : List Node) × (list_nodes list_bolt running.store ≡ Store.ok ns)
        × Mem forward ns
        × (r.0.file ≡ some (build_config windows options ns)))
handle_delete_node_lem_example =
    handle_delete_node_lem list_bolt registry windows options "a" running forward listed refl safe
      held removes
