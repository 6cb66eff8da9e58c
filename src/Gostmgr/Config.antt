-- ===== src/Gostmgr/Config.antt =====
-- internal/gostmgr/config.go: the whole configuration of gost, built from the nodes.
pub mod Names
pub mod Closed
mod Tests
use Prim.Native.String.{◌++◌ as join}
use gost_webui.Prelude.{
  ℕ, String, Bool, true, false, not, ◌&&◌, ◌||◌, Option, none, some, List, [], ◌∷◌, ◌++◌, ◌==◌,
  string_eq, if◌then◌else◌,
}
use gost_webui.Prelude.Int.{ℤ, positive}
use gost_webui.Prelude.Maps.{Map, insert}
use gost_webui.Model.{Node, is_reality, tcp_name, udp_name, quota_name, limiter_name, climiter_name}
use gost_webui.Model.Text.{itoa, trim_space}
use gost_webui.Gostmgr.Schema.{
  MetaValue, flag, text, number, Auth, Handler, Listener, ForwardNode, Service, Quota, Limiter, Log,
  Config, BuildOptions, Windows,
}
use gost_webui.Gostmgr.Protocol.{
  GostProtocol, GostTransport, protocol_spec, transport_spec, node_gost_protocol,
  node_gost_transport,
}

quota_window : Windows → String → String × String
quota_window w period =
    if period == "daily" then w.day else if period == "monthly" then w.month else ("", "")

log_of : String → Log
log_of level =
    if level == "off"
    then record { output = "/dev/null"; level = "info"; format = "text" }
    else record {
      output = "stderr";
      level = if level == "" then "info" else level;
      format = "text";
    }

abbrev plain_handler : String → Option Auth → Handler
plain_handler kind auth = record { kind = kind; auth = auth; metadata = [] }

abbrev plain_listener : String → Listener
plain_listener kind = record { kind = kind; auth = none; metadata = [] }

abbrev plain_service : String → ℤ → Handler → Listener → Service
plain_service name port h l = record {
  name = name;
  addr = join ":" (itoa port);
  quotas = [];
  limiter = "";
  climiter = "";
  handler = h;
  listener = l;
  forwarder = none;
  metadata = [];
}

relay_service : String → ℤ → String → String → Service
relay_service name port network target =
    record (plain_service name port (plain_handler network none) (plain_listener network)) {
      forwarder = some (record { name = "target"; addr = target } ∷ []);
    }

auth_of : Option GostProtocol → String
auth_of none = ""
auth_of (some p) = p.auth

node_auth : Node → String → Option Auth
unfolding auth_of
node_auth n protocol =
    let auth = auth_of (protocol_spec protocol) in
    if auth == "ss"
    then some (record { username = n.gost_cipher; password = n.gost_password })
    else if auth == "user"
    then some (record { username = n.gost_username; password = "" })
    else if auth == "userpass"
    then some (record { username = n.gost_username; password = n.gost_password })
    else none

has_path : Option GostTransport → Bool
has_path none = false
has_path (some t) = t.path

is_ssh : String → Bool
is_ssh transport = transport == "ssh" || transport == "sshd"

-- The listener of a local landing service: DTLS's timing, SSH's credentials, the path of the channel.
proxy_listener : Node → String → Listener
unfolding has_path is_ssh
proxy_listener n transport =
    let timing : Map String MetaValue =
      if transport == "dtls"
      then ("flightInterval", text "500ms") ∷ ("mtu", number 1200) ∷ []
      else [] in
    let path = trim_space n.gost_path in
    record {
      kind = transport;
      auth =
          if is_ssh transport
          then some (record { username = n.gost_username; password = n.gost_password })
          else none;
      metadata =
          if has_path (transport_spec transport) && not (path == "")
          then insert "path" (text path) timing
          else timing;
    }

unfoldable pub build_gost_proxy_services : Node → ℤ → List Service
unfolding node_auth proxy_listener is_ssh
build_gost_proxy_services n port =
    let protocol = node_gost_protocol n in
    let transport = node_gost_transport n in
    let auth = if is_ssh transport then none else node_auth n protocol in
    let main =
      plain_service (tcp_name n.id) port (plain_handler protocol auth)
        (proxy_listener n transport) in
    let extra =
      plain_service (udp_name n.id) port (plain_handler "ssu" (node_auth n protocol))
        (plain_listener "udp") in
    if n.udp && protocol == "ss" then main ∷ extra ∷ [] else main ∷ []

unfoldable pub network_of : Option GostTransport → String
network_of none = "tcp"
network_of (some t) = if t.network == "udp" then "udp" else "tcp"

-- The services of a node, before its quota and its limits are attached.
unfoldable pub node_services : Node → List Service
unfolding build_gost_proxy_services network_of relay_service
node_services n =
    let target = join n.target_host (join ":" (itoa n.target_port)) in
    let network =
      if n.mode == "gost" then network_of (transport_spec (node_gost_transport n)) else "tcp" in
    let main = relay_service (tcp_name n.id) n.listen_port network target in
    let extra = relay_service (udp_name n.id) n.listen_port "udp" target in
    if n.mode == "gost" && n.gost_local
    then build_gost_proxy_services n n.listen_port
    else if n.udp && network == "tcp"
    then main ∷ extra ∷ []
    else main ∷ []

-- The quota that a node has in the configuration, if it has one.
node_quotas : Windows → BuildOptions → Node → List Quota
unfolding quota_window
node_quotas w opts n =
    let (s, e) = quota_window w n.quota.period in
    if n.quota.enabled && positive n.quota.bytes
    then record {
      name = quota_name n.id;
      limit = join (itoa n.quota.bytes) "B";
      starts_at = s;
      expires_at = e;
      direction = n.quota.direction;
      flush = "5s";
      file = opts.quota_file;
    }
      ∷ []
    else []

node_limiters : Node → List Limiter
node_limiters n =
    if n.rate.enabled && (positive n.rate.in_bps || positive n.rate.out_bps)
    then record {
      name = limiter_name n.id;
      limits = join "$ " (join (itoa n.rate.in_bps) (join " " (itoa n.rate.out_bps))) ∷ [];
    }
      ∷ []
    else []

node_climiters : Node → List Limiter
node_climiters n =
    if positive n.conn_limit
    then record { name = climiter_name n.id; limits = join "$ " (itoa n.conn_limit) ∷ [] } ∷ []
    else []

abbrev pub quota_names : List Quota → List String
quota_names [] = []
quota_names (q ∷ qs) = q.name ∷ quota_names qs

abbrev pub limiter_names : List Limiter → List String
limiter_names [] = []
limiter_names (l ∷ ls) = l.name ∷ limiter_names ls

abbrev first_or_empty : List String → String
first_or_empty [] = ""
first_or_empty (x ∷ xs) = x

-- The loop that attaches a node's quota and limits to its services.
attach : List String → String → String → List Service → List Service
attach quotas limiter climiter [] = []
attach quotas limiter climiter (s ∷ ss) =
    record s {
      quotas = quotas;
      limiter = limiter;
      climiter = climiter;
      metadata = insert "enableStats" (flag true) s.metadata;
    }
    ∷ attach quotas limiter climiter ss

abbrev pub is_configured : Node → Bool
is_configured n = n.enabled && not (is_reality n)

-- One round of the loop over the nodes.
add_node : Windows → BuildOptions → Node → Config → Config
unfolding node_quotas node_limiters node_climiters node_services attach
add_node w opts n cfg =
    let quotas = node_quotas w opts n in
    let limiters = node_limiters n in
    let climiters = node_climiters n in
    let services =
      attach (quota_names quotas) (first_or_empty (limiter_names limiters))
        (first_or_empty (limiter_names climiters)) (node_services n) in
    if is_configured n
    then record cfg {
      services = cfg.services ++ services;
      quotas = cfg.quotas ++ quotas;
      limiters = cfg.limiters ++ limiters;
      climiters = cfg.climiters ++ climiters;
    }
    else cfg

add_nodes : Windows → BuildOptions → List Node → Config → Config
unfolding add_node
add_nodes w opts [] cfg = cfg
add_nodes w opts (n ∷ ns) cfg = add_nodes w opts ns (add_node w opts n cfg)

unfoldable pub build_config : Windows → BuildOptions → List Node → Config
unfolding add_nodes log_of
build_config w opts nodes = add_nodes w opts nodes (record {
  services = [];
  quotas = [];
  limiters = [];
  climiters = [];
  api_addr = opts.api_addr;
  api_auth = record { username = opts.api_user; password = opts.api_pass };
  log = log_of opts.log_level;
})
