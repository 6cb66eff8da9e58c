-- ===== src/Alerts/Tests.antt =====
-- A node that has used 90 of 100 bytes.
use gost_webui.Prelude.{◌≤◌, ◌≡◌, refl, true, none, [], ◌∷◌, ltb, if◌then◌else◌}
use gost_webui.Model.{Node, Live, zero_node, zero_live}
use gost_webui.Alerts.{Manager, best_level, level_in, observe_quota}
use gost_webui.Alerts.Levels.{observe_quota_lem}

abbrev watched : Node
watched = record zero_node { id = "a"; enabled = true }

abbrev nearly : Live
nearly = record zero_live { running = true; quota_used = 90; quota_limit = 100 }

abbrev manager : Manager
manager = record {
  notify = record {
    cfg = record { enabled = true; token = "t"; chat_id = "1"; events = none; cooldown = 600 };
    last = [];
    outbox = [];
  };
  node_running = [];
  node_conns = [];
  quota_level = [];
  window_key = [];
  traffic_thresholds = 80 ∷ 95 ∷ [];
}

observe_quota_lem_example :
    (level_in nearly "a" (observe_quota 5 watched nearly manager) ≡ (
      if ltb (level_in nearly "a" manager) (best_level nearly (80 ∷ 95 ∷ []) 0)
      then best_level nearly (80 ∷ 95 ∷ []) 0
      else level_in nearly "a" manager))
    × (best_level nearly (80 ∷ 95 ∷ []) 0 ≤ level_in nearly "a" manager
        → (observe_quota 5 watched nearly manager).notify ≡ manager.notify)
observe_quota_lem_example = observe_quota_lem 5 watched nearly manager refl
