-- ===== src/Server/Nodes/Common.antt =====
-- internal/server/handlers_nodes.go: newNodeBase and applyCommon, what nodes of every kind are made with.
-- `old` is none for a new node.
pub mod Numbers
pub mod Limits
pub mod Sound
pub mod Accepted
use Prim.Native.String.{◌++◌}
use gost_webui.Prelude.{
  ℕ, String, Bool, true, not, ◌&&◌, ◌||◌, Option, none, some, List, ◌∷◌, ltb, ◌==◌, string_eq,
  nat_eq, if◌then◌else◌,
}
use gost_webui.Prelude.Int.{ℤ, pos, positive, int_eq, int_ltb}
use gost_webui.Model.{Node, QuotaSpec, zero_node}
use gost_webui.Server.Nodes.{
  NodeInput, QuotaInput, RateInput, Env, Checked, ok, bad, ◌>>=◌, ◌>>◌, refuse_if, pick_free_port,
  valid_hostname, bad_port, no_free_port, port_taken, bad_period, bad_bytes, bad_rate, no_rate,
}

abbrev pub or_default : String → String → String
or_default s d = if s == "" then d else s

unfoldable pub new_node_base : Env → Option Node → Node
new_node_base env none = record zero_node { id = env.fresh_id; sub_token = env.fresh_token }
new_node_base env (some old) = record zero_node {
  id = old.id;
  mode = old.mode;
  sub_token = or_default old.sub_token env.fresh_token;
}

-- `applyCommon`, part by part.
chosen_udp : Option Bool → Option Node → Bool → Bool
chosen_udp (some b) old d = b
chosen_udp none (some old) d = old.udp
chosen_udp none none d = d

unfoldable pub is_port : ℤ → Bool
is_port p = positive p && not (int_ltb (pos 65535) p)

free_port : Env → Checked ℤ
free_port env = elim (pick_free_port env) [ none ↦ bad no_free_port | some p ↦ ok (pos p) ]

old_port : Option Node → ℤ
old_port none = pos 0
old_port (some old) = old.listen_port

unfoldable pub chosen_port : Env → ℤ → Option Node → Checked ℤ
unfolding is_port free_port old_port
chosen_port env asked old =
    if positive asked
    then if is_port asked then ok asked else bad bad_port
    else if positive (old_port old)
    then ok (old_port old)
    else free_port env

abbrev pub is_new_port : Option Node → ℤ → Bool
is_new_port none p = true
is_new_port (some old) p = not (old.listen_port == p)

abbrev known_direction : String → String
known_direction d = if d == "in" || d == "out" then d else "total"

unfoldable pub checked_quota : Option QuotaInput → Node → Checked Node
checked_quota none n = ok n
checked_quota (some q) n =
    let spec : QuotaSpec = record {
      enabled = q.enabled;
      period = q.period;
      bytes = q.bytes;
      direction = if q.enabled then known_direction q.direction else q.direction;
    } in
    if q.enabled && not (q.period == "daily" || q.period == "monthly" || q.period == "total")
    then bad bad_period
    else if q.enabled && not (positive q.bytes)
    then bad bad_bytes
    else ok (record n { quota = spec })

unfoldable pub checked_rate : Option RateInput → Node → Checked Node
checked_rate none n = ok n
checked_rate (some r) n =
    if r.enabled && (int_ltb r.in_bps (pos 0) || int_ltb r.out_bps (pos 0))
    then bad bad_rate
    else if r.enabled && (r.in_bps == pos 0 && r.out_bps == pos 0)
    then bad no_rate
    else ok
        (record n { rate = record { enabled = r.enabled; in_bps = r.in_bps; out_bps = r.out_bps } })

chosen_enabled : Option Bool → Option Node → Bool
chosen_enabled (some b) old = b
chosen_enabled none (some old) = old.enabled
chosen_enabled none none = true

same_quota : QuotaSpec → QuotaSpec → Bool
same_quota a b =
    (if a.enabled then b.enabled else not b.enabled)
    && a.period == b.period
    && a.bytes == b.bytes
    && a.direction == b.direction

-- The start of the count: kept while the quota is the same.
unfoldable pub quota_start : ℕ → Option Node → Node → ℕ
unfolding same_quota
quota_start now none n = now
quota_start now (some old) n =
    if same_quota old.quota n.quota && ltb 0 old.quota_since then old.quota_since else now

abbrev with_since : ℕ → Option Node → Node → Node
with_since now old n = record n {
  quota_since =
      if n.quota.enabled && positive n.quota.bytes then quota_start now old n else n.quota_since;
}

unfoldable pub apply_common : Env → NodeInput → Option Node → Bool → Node → Checked Node
unfolding chosen_udp chosen_port checked_quota checked_rate chosen_enabled
apply_common env in_ old default_udp n = do
  port ← chosen_port env in_.listen_port old
  refuse_if (is_new_port old port && not (env.port_free port)) port_taken
  n' ← checked_quota in_.quota (record n {
    udp = chosen_udp in_.udp old default_udp;
    listen_port = port;
    conn_limit = if int_ltb in_.conn_limit (pos 0) then pos 0 else in_.conn_limit;
  })
  n'' ← checked_rate in_.rate n'
  ok (with_since env.now old (record n'' { enabled = chosen_enabled in_.enabled old }))

abbrev pub is_address : Env → String → Bool
is_address env host = env.is_ip host || valid_hostname host
