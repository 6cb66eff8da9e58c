-- ===== src/Alerts.antt =====
-- internal/alerts/alerts.go, ObserveNodes: the notices that a round of sampling gives. The share of a
-- quota that is used is compared exactly, where the program divides floating-point numbers.
pub mod Levels
mod Tests
use Prim.Native.String.{◌++◌ as join}
use gost_webui.Prelude.{
  ℕ, ◌+◌, ◌*◌, ◌/◌, String, Bool, true, false, not, ◌&&◌, ◌||◌, Option, none, some, List, [], ◌∷◌,
  ltb, leb, ◌==◌, nat_eq, string_eq, if◌then◌else◌,
}
use gost_webui.Prelude.Int.{pos}
use gost_webui.Prelude.Maps.{Map, lookup, insert}
use gost_webui.Model.{Node, Live}
use gost_webui.Model.Text.{itoa}
use gost_webui.Notify.{
  Notice, node_up, node_down, clients_online, clients_offline, quota_blocked, traffic_warning,
  Notifier, send,
}

pub record Manager : Type 0 where
  pub notify : Notifier
  pub node_running : Map String Bool
  pub node_conns : Map String ℕ
  pub quota_level : Map String ℕ
  pub window_key : Map String ℕ
  pub traffic_thresholds : List ℕ

down_reason : Node → Live → String
down_reason n lv =
    if not n.enabled then "节点已被手动停用" else if lv.quota_blocked then "流量超限已暂停" else "服务已停止"

-- 1) A node that has come up or gone down since the last round.
observe_running : ℕ → Node → Live → Option Bool → Notifier → Notifier
unfolding down_reason
observe_running at n lv none notifier = notifier
observe_running at n lv (some prev) notifier =
    let now = lv.running && n.enabled in
    if prev && not now
    then send at "nodeDown" n.id (node_down n.id (down_reason n lv)) notifier
    else if not prev && now
    then send at "nodeUp" n.id (node_up n.id) notifier
    else notifier

-- 2) Clients that have all gone, or the first ones that have come.
observe_conns : ℕ → Node → Live → Option ℕ → Notifier → Notifier
observe_conns at n lv none notifier = notifier
observe_conns at n lv (some prev) notifier =
    if prev == 0 && ltb 0 lv.current_conns
    then send at "nodeClient" (join n.id "|online") (clients_online n.id lv.current_conns) notifier
    else if ltb 0 prev && lv.current_conns == 0
    then send at "nodeClient" (join n.id "|offline") (clients_offline n.id) notifier
    else notifier

-- 3) A quota that is used up.
observe_blocked : ℕ → Node → Live → Notifier → Notifier
observe_blocked at n lv notifier =
    if ltb 0 lv.quota_limit && lv.quota_blocked
    then send at "quotaBlocked" n.id
        (quota_blocked n.id lv.quota_used lv.quota_limit lv.quota_until) notifier
    else notifier

-- The highest threshold that the used share has reached, 0 for none.
unfoldable pub best_level : Live → List ℕ → ℕ → ℕ
best_level lv [] best = best
best_level lv (th ∷ ths) best =
    best_level lv ths
      (if leb (th * lv.quota_limit) (lv.quota_used * 100) && ltb best th then th else best)

abbrev pub or_zero : Option ℕ → ℕ
or_zero none = 0
or_zero (some n) = n

-- The level that was warned of in the window that the quota is in.
unfoldable pub level_in : Live → String → Manager → ℕ
level_in lv id m =
    if or_zero (lookup id m.window_key) == lv.quota_until
    then or_zero (lookup id m.quota_level)
    else 0

-- A new window starts at level 0.
open_window : Live → String → Manager → Manager
open_window lv id m = if or_zero (lookup id m.window_key) == lv.quota_until then m else record m {
  window_key = insert id lv.quota_until m.window_key;
  quota_level = insert id 0 m.quota_level;
}

-- 4) A quota that has reached a higher threshold than any before in its window.
unfoldable pub observe_quota : ℕ → Node → Live → Manager → Manager
unfolding open_window best_level level_in
observe_quota at n lv m =
    let m' = open_window lv n.id m in
    let best = best_level lv m.traffic_thresholds 0 in
    if not (ltb 0 lv.quota_limit && not lv.quota_blocked)
    then m
    else if ltb (level_in lv n.id m) best
    then record m' {
      quota_level = insert n.id best m'.quota_level;
      notify =
          send at "trafficWarn" (join n.id (join "-" (itoa (pos best))))
            (traffic_warning n.id lv.quota_used lv.quota_limit best lv.quota_until) m'.notify;
    }
    else m'

-- One node's round.
unfoldable pub observe_node : ℕ → Node → Live → Manager → Manager
unfolding observe_running observe_conns observe_blocked observe_quota
observe_node at n lv m =
    let up = observe_running at n lv (lookup n.id m.node_running) m.notify in
    let clients = observe_conns at n lv (lookup n.id m.node_conns) up in
    observe_quota at n lv (record m {
      notify = observe_blocked at n lv clients;
      node_running = insert n.id (lv.running && n.enabled) m.node_running;
      node_conns = insert n.id lv.current_conns m.node_conns;
    })

observe_found : ℕ → Node → Option Live → Manager → Manager
unfolding observe_node
observe_found at n none m = m
observe_found at n (some lv) m = observe_node at n lv m

-- `ObserveNodes`
unfoldable pub observe_nodes : ℕ → List Node → Map String Live → Manager → Manager
unfolding observe_found
observe_nodes at [] live m = m
observe_nodes at (n ∷ ns) live m =
    observe_nodes at ns live (observe_found at n (lookup n.id live) m)
