-- ===== src/Controller/Traffic.antt =====
-- internal/controller/controller.go: resetting a node's traffic, and the use of a quota that the panel
-- restores in gost. What gost and sing-box answer are arguments.
pub mod Resets
pub mod Restores
mod Tests
use gost_webui.Prelude.{
  ℕ, ◌+◌, String, Bool, true, false, not, ◌&&◌, Option, none, some, List, [], ◌∷◌, ltb, leb, ◌==◌,
  string_eq, if◌then◌else◌,
}
use gost_webui.Prelude.Int.{ℤ, pos, negsuc, positive}
use gost_webui.Prelude.Maps.{Map, delete}
use gost_webui.Model.{Node, Point, is_reality}
use gost_webui.Bolt.{Bolt}
use gost_webui.Store.{Store, save_node}
use gost_webui.Store.Hours.{range_traffic}
use gost_webui.Controller.Sampler.{Counters, QuotaStatus, Sampler, add64}
use gost_webui.Controller.Sampler.Reality.{EngineStats, has_quota}

-- Totals at 0; the engine's counters as given.
abbrev pub at_zero : ℕ → ℕ → ℤ → Node → Node
at_zero up down pid n = record n {
  total_in = 0;
  total_out = 0;
  counter_in = up;
  counter_out = down;
  counter_pid = pid;
}

-- A sing-box node keeps the counters that its engine has now, if the engine answers.
unfoldable pub reset_node : Bool → EngineStats → Node → Node
reset_node has_engine st n =
    if is_reality n && has_engine && positive st.pid
    then at_zero st.up st.down st.pid n
    else at_zero 0 0 (negsuc 0) n

sum_window : String → List Point → ℕ → ℕ
sum_window direction [] used = used
sum_window direction (p ∷ ps) used =
    let more =
      if direction == "in"
      then add64 used p.in_bytes
      else if direction == "out"
      then add64 used p.out_bytes
      else add64 used (add64 p.in_bytes p.out_bytes) in
    sum_window direction ps more

starts_at_of : Option QuotaStatus → ℕ
starts_at_of none = 0
starts_at_of (some q) = q.starts_at

module _ (bolt : Bolt) where
  -- `ResetNodeTraffic`: the node, the sampler's state, and whether there was no error. The first
  -- argument is whether gost has reset the quota.
  unfoldable pub reset_node_traffic :
      Bool → Bool → EngineStats → Node → Sampler bolt → Node × Sampler bolt × Bool
  unfolding reset_node
  reset_node_traffic quota_reset has_engine st n s =
      let n' = reset_node has_engine st n in
      let (store, done) = save_node bolt n' s.store in
      if has_quota n && not quota_reset
      then (n, s, false)
      else (n', record s { last = delete n.id s.last; store = store }, done)

  -- `WindowUsed` of a node whose quota has a status in gost, or none.
  unfoldable pub window_used : ℕ → Node → Option QuotaStatus → Store bolt → ℕ
  unfolding sum_window starts_at_of
  window_used now n q st =
      let starts_at = starts_at_of q in
      let from = if ltb starts_at n.quota_since then n.quota_since else starts_at in
      sum_window n.quota.direction (range_traffic bolt n.id from (now + 1) st) 0

  -- `restoreQuotaUsage`: the use that gost is told to count from, if it is told any.
  unfoldable pub restore_quota_usage : ℕ → Node → Option QuotaStatus → Store bolt → Option ℕ
  unfolding window_used
  restore_quota_usage now n none st = none
  restore_quota_usage now n (some q) st =
      let panel_used = window_used now n (some q) st in
      if leb panel_used q.used then none else some panel_used
