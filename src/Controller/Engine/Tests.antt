-- ===== src/Controller/Engine/Tests.antt =====
-- A forwarding node brought to gost and removed from it.
use gost_webui.Prelude.{String, ◌≡◌, refl, true, none, [], ◌∷◌, string_eq, if◌then◌else◌}
use gost_webui.Prelude.Int.{pos}
use gost_webui.Prelude.Maps.{insert}
use gost_webui.Model.{Node, zero_node, tcp_name, udp_name}
use gost_webui.Bolt.Lists.{list_bolt}
use gost_webui.Store.{open_new, save_node, list_nodes, sort_nodes}
use gost_webui.Gostmgr.Schema.{Windows, BuildOptions}
use gost_webui.Gostmgr.Config.{build_config}
use gost_webui.Gostmgr.Client.{upsert, delete}
use gost_webui.Gostmgr.Client.Registry.{registry, no_names}
use gost_webui.Controller.Engine.{Panel, apply_node, remove_node, resources_of}
use gost_webui.Controller.Engine.Services.{placed}
use gost_webui.Controller.Engine.Nodes.{IsSynced, apply_node_lem}
use gost_webui.Controller.Engine.Removal.{lists, remove_node_lem}

abbrev pub forward : Node
forward = record zero_node {
  id = "a";
  enabled = true;
  mode = "link";
  listen_port = pos 8388;
  target_host = "b";
  target_port = pos 443;
}

abbrev pub options : BuildOptions
options = record {
  api_addr = "127.0.0.1:18080";
  api_user = "u";
  api_pass = "p";
  quota_file = "q.json";
  log_level = "";
}

abbrev pub windows : Windows
windows = record { day = ("d0", "d1"); month = ("m0", "m1") }

abbrev pub panel : Panel list_bolt registry
panel = record {
  store = (save_node list_bolt forward (open_new list_bolt [])).0;
  gost_state = no_names;
  file = none;
  writes = [];
  nodes = forward ∷ [];
  pool = none;
}

applies : (apply_node list_bolt registry windows options forward panel).1 ≡ none
unfolding apply_node build_config upsert delete save_node list_nodes sort_nodes insert tcp_name
    udp_name
applies = refl

apply_node_lem_example :
    let p' = (apply_node list_bolt registry windows options forward panel).0 in
    ((name : String)
      → p'.gost_state "services" name
        ≡ placed forward
            (build_config windows options (forward ∷ [])).services
            name
            (panel.gost_state "services" name))
    × IsSynced list_bolt registry windows options (record panel { gost_state = p'.gost_state }) p'
apply_node_lem_example =
    apply_node_lem list_bolt registry windows options forward panel refl applies

abbrev pub running : Panel list_bolt registry
running = (apply_node list_bolt registry windows options forward panel).0

removes : (remove_node list_bolt registry windows options forward running).1 ≡ none
unfolding apply_node remove_node build_config upsert delete save_node list_nodes sort_nodes insert
    tcp_name udp_name
removes = refl

remove_node_lem_example :
    let p' = (remove_node list_bolt registry windows options forward running).0 in
    ((k name : String)
      → p'.gost_state k name
        ≡ (if lists k name (resources_of forward) then none else running.gost_state k name))
    × IsSynced list_bolt registry windows options (record running { gost_state = p'.gost_state }) p'
remove_node_lem_example =
    remove_node_lem list_bolt registry windows options forward running refl removes
