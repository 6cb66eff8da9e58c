-- ===== src/Server/Settings/Tests.antt =====
-- A request that asks for another interval and another level.
use gost_webui.Prelude.{◌≡◌, refl, true, none, some, List, [], string_eq}
use gost_webui.Prelude.Int.{pos}
use gost_webui.Model.{Node}
use gost_webui.Bolt.Lists.{list_bolt}
use gost_webui.Store.{open_new, list_nodes, ok}
use gost_webui.Gostmgr.Schema.{Windows}
use gost_webui.Gostmgr.Config.{build_config}
use gost_webui.Gostmgr.Client.Registry.{registry, no_names}
use gost_webui.Server.Settings.{SettingsInput, Running, saved, handle_update_settings}
use gost_webui.Server.Settings.Ranges.{IsInRange, handle_update_settings_lem}

abbrev windows : Windows
windows = record { day = ("d0", "d1"); month = ("m0", "m1") }

abbrev running : Running list_bolt registry
running = record {
  panel = record {
    store = open_new list_bolt [];
    gost_state = no_names;
    file = none;
    writes = [];
    nodes = [];
    pool = none;
  };
  sample_seconds = pos 10;
  retention_days = pos 90;
  opts = record {
    api_addr = "127.0.0.1:18080";
    api_user = "u";
    api_pass = "p";
    quota_file = "q.json";
    log_level = "info";
  };
  has_log = true;
}

abbrev request : SettingsInput
request = record {
  public_host = none;
  site_title = some "panel";
  sample_seconds = some (pos 2);
  retention_days = some (pos 30);
  gost_log_level = some "warning";
}

in_range : IsInRange list_bolt registry running
in_range = record { sample = refl; retention = refl }

handle_update_settings_lem_example :
    let r = handle_update_settings list_bolt registry windows request running in
    IsInRange list_bolt registry r.0
    × (r.1 ≡ saved true
        → (ns : List Node) × (list_nodes list_bolt r.0.panel.store ≡ ok ns)
          × (r.0.panel.file ≡ some (build_config windows r.0.opts ns)))
handle_update_settings_lem_example =
    handle_update_settings_lem list_bolt registry windows request running in_range
