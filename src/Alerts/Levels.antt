-- ===== src/Alerts/Levels.antt =====
-- The levels of a quota that warnings are given for.
use gost_webui.Prelude.{
  if◌then◌else◌, ℕ, ◌≤◌, ◌≡◌, refl, true, not, ◌&&◌, arith, ltb, ◌==◌, nat_eq, string_eq,
  Bool-cases, inl, inr,
}
use gost_webui.Prelude.Maps.{lookup, insert, lookup-insert_self}
use gost_webui.Model.{Node, Live}
use gost_webui.Alerts.{Manager, best_level, or_zero, level_in, open_window, observe_quota}

-- The quota is set and not used up.
abbrev pub IsCounting : Live → Type 0
IsCounting lv = (ltb 0 lv.quota_limit && not lv.quota_blocked) ≡ true

-- After a round the level of the window that the quota is in is the higher one of what it was in that
-- window, 0 for a new one, and of the highest threshold reached; and unless that threshold is higher
-- than the level was, no notice is posted.
pub observe_quota_lem :
    (at : ℕ) (n : Node) (lv : Live) (m : Manager)
    → IsCounting lv
    → let best = best_level lv m.traffic_thresholds 0 in
      let m' = observe_quota at n lv m in
      (level_in lv n.id m' ≡ (if ltb (level_in lv n.id m) best then best else level_in lv n.id m))
      × (best ≤ level_in lv n.id m → m'.notify ≡ m.notify)
unfolding observe_quota open_window level_in
observe_quota_lem at n lv m counting =
    let best = best_level lv m.traffic_thresholds 0 in
    let window = lookup-insert_self n.id lv.quota_until m.window_key in
    elim (Bool-cases (or_zero (lookup n.id m.window_key) == lv.quota_until)) [
      | inl same ↦ elim (Bool-cases (ltb (or_zero (lookup n.id m.quota_level)) best)) [
        | inl higher ↦
            rw (counting, same, higher, lookup-insert_self n.id best m.quota_level)
              (rw same refl, λ le. absurd (ground (arith, higher)))
        | inr lower ↦ rw (counting, same, lower) (rw same refl, λ le. refl)
      ]
      | inr new ↦ elim (Bool-cases (ltb 0 best)) [
        | inl higher ↦
            rw
              (
                counting,
                new,
                higher,
                window,
                lookup-insert_self n.id best (insert n.id 0 m.quota_level),
              )
              (ground arith, λ le. absurd (ground (arith, higher)))
        | inr lower ↦
            rw (counting, new, lower, window, lookup-insert_self n.id 0 m.quota_level)
              (ground arith, λ le. refl)
      ]
    ]
