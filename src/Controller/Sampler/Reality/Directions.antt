-- ===== src/Controller/Sampler/Reality/Directions.antt =====
-- The direction of a sing-box node's quota.
use gost_webui.Prelude.{ℕ, ◌≡◌, refl, String, List, [], ◌∷◌, string_eq}
use gost_webui.Model.{Node, Point}
use gost_webui.Bolt.{Bolt}
use gost_webui.Store.{Store}
use gost_webui.Controller.Sampler.{add64}
use gost_webui.Controller.Sampler.Reality.{Clock, quota_used, sum_points}

abbrev pub towards : String → Node → Node
towards direction n = record n { quota = record n.quota { direction = direction } }

sum_points-out :
    (ps : List Point) (used : ℕ) → sum_points "out" ps used ≡ sum_points "total" ps used
unfolding sum_points
sum_points-out [] used = refl
sum_points-out (p ∷ ps) used = sum_points-out ps (add64 (add64 used p.in_bytes) p.out_bytes)

module _ (bolt : Bolt) where
  -- A sing-box node whose quota is on the direction "out" has used as many bytes of it as if the quota
  -- were on both directions.
  pub quota_used-out :
      (clock : Clock) (n : Node) (st : Store bolt)
      → quota_used bolt clock (towards "out" n) st ≡ quota_used bolt clock (towards "total" n) st
  unfolding quota_used
  quota_used-out clock n st = rw (sum_points-out) refl
