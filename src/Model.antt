-- ===== src/Model.antt =====
-- internal/model/model.go: the data that the panel keeps about its nodes, and the names under which
-- gost knows a node's resources. Times are Unix seconds.
pub mod Names
pub mod Text
mod Tests
use Prim.Native.String.{◌++◌}
use gost_webui.Prelude.{
  ℕ, zero, suc, String, Bool, false, not, ◌&&◌, ◌||◌, List, [], ◌∷◌, ◌==◌, string_eq, if◌then◌else◌,
}
use gost_webui.Prelude.Int.{ℤ, pos}
use Text.{to_lower, trim_space}

pub record QuotaSpec : Type 0 where
  pub enabled : Bool
  -- daily / monthly / total
  pub period : String
  pub bytes : ℤ
  -- total / in / out
  pub direction : String

pub record RateSpec : Type 0 where
  pub enabled : Bool
  pub in_bps : ℤ
  pub out_bps : ℤ

pub record Node : Type 0 where
  pub id : String
  pub name : String
  pub protocol : String
  pub listen_port : ℤ
  pub target_host : String
  pub target_port : ℤ
  pub udp : Bool
  pub enabled : Bool
  pub landing_link : String
  pub sni : String
  pub host : String
  pub sub_token : String
  pub mode : String
  pub gost_local : Bool
  pub gost_protocol : String
  pub gost_transport : String
  pub gost_username : String
  pub gost_cipher : String
  pub gost_password : String
  pub gost_path : String
  pub reality_uuid : String
  pub reality_priv : String
  pub reality_pub : String
  pub reality_short_id : String
  pub reality_sni : String
  pub reality_ip_mode : String
  pub quota : QuotaSpec
  pub rate : RateSpec
  pub conn_limit : ℤ
  pub quota_since : ℕ
  pub created_at : ℕ
  pub updated_at : ℕ
  pub total_in : ℕ
  pub total_out : ℕ
  pub counter_in : ℕ
  pub counter_out : ℕ
  pub counter_pid : ℤ

-- The zero value of Go's `Node`.
abbrev pub zero_node : Node
zero_node = record {
  id = "";
  name = "";
  protocol = "";
  listen_port = pos 0;
  target_host = "";
  target_port = pos 0;
  udp = false;
  enabled = false;
  landing_link = "";
  sni = "";
  host = "";
  sub_token = "";
  mode = "";
  gost_local = false;
  gost_protocol = "";
  gost_transport = "";
  gost_username = "";
  gost_cipher = "";
  gost_password = "";
  gost_path = "";
  reality_uuid = "";
  reality_priv = "";
  reality_pub = "";
  reality_short_id = "";
  reality_sni = "";
  reality_ip_mode = "";
  quota = record { enabled = false; period = ""; bytes = pos 0; direction = "" };
  rate = record { enabled = false; in_bps = pos 0; out_bps = pos 0 };
  conn_limit = pos 0;
  quota_since = 0;
  created_at = 0;
  updated_at = 0;
  total_in = 0;
  total_out = 0;
  counter_in = 0;
  counter_out = 0;
  counter_pid = pos 0;
}

abbrev pub is_reality : Node → Bool
is_reality n = n.mode == "reality"

unfoldable pub normalize_ip_mode : String → String
normalize_ip_mode v =
    let w = to_lower (trim_space v) in
    if w == "4" || w == "ipv4" then "ipv4" else if w == "6" || w == "ipv6" then "ipv6" else "auto"

unfoldable pub ip_mode_listen : String → String
unfolding normalize_ip_mode
ip_mode_listen mode = if normalize_ip_mode mode == "ipv4" then "0.0.0.0" else "::"

unfoldable pub tcp_name : String → String
tcp_name id = "node-" ++ (id ++ "-tcp")

unfoldable pub udp_name : String → String
udp_name id = "node-" ++ (id ++ "-udp")

unfoldable pub quota_name : String → String
quota_name id = "quota-" ++ id

unfoldable pub limiter_name : String → String
limiter_name id = "limiter-" ++ id

unfoldable pub climiter_name : String → String
climiter_name id = "climiter-" ++ id

-- Only local Shadowsocks and forwarding nodes have a second service.
abbrev has_udp_service : Node → Bool
has_udp_service n =
    n.udp
    && (not n.gost_local
        || not (n.mode == "gost")
        || n.gost_protocol == ""
        || n.gost_protocol == "ss")

unfoldable pub service_names : Node → List String
service_names n =
    if is_reality n
    then []
    else if has_udp_service n
    then tcp_name n.id ∷ udp_name n.id ∷ []
    else tcp_name n.id ∷ []

pub record Point : Type 0 where
  pub ts : ℤ
  pub in_bytes : ℕ
  pub out_bytes : ℕ

pub record Live : Type 0 where
  pub current_conns : ℕ
  pub total_conns : ℕ
  pub total_errs : ℕ
  pub running : Bool
  pub quota_used : ℕ
  pub quota_limit : ℕ
  pub quota_blocked : Bool
  pub quota_expired : Bool
  pub quota_active : Bool
  pub quota_until : ℕ
  pub service_state : String

abbrev pub zero_live : Live
zero_live = record {
  current_conns = 0;
  total_conns = 0;
  total_errs = 0;
  running = false;
  quota_used = 0;
  quota_limit = 0;
  quota_blocked = false;
  quota_expired = false;
  quota_active = false;
  quota_until = 0;
  service_state = "";
}
