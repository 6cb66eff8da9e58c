-- ===== src/Controller/Traffic/Restores.antt =====
-- What the panel restores of a quota's use in gost.
use gost_webui.Prelude.{ℕ, ◌<◌, ◌≡◌, none, some, arith}
use gost_webui.Model.{Node}
use gost_webui.Bolt.{Bolt}
use gost_webui.Store.{Store}
use gost_webui.Controller.Sampler.{QuotaStatus}
use gost_webui.Controller.Traffic.{window_used, restore_quota_usage, starts_at_of}

module _ (bolt : Bolt) where
  -- Gost is told to count from a use that is above its own, and once its use is the one that it was
  -- told, with the window as it was, it is told nothing more.
  pub restore_quota_usage_settles :
      (now : ℕ) (n : Node) (q : QuotaStatus) (st : Store bolt) (u : ℕ)
      → restore_quota_usage bolt now n (some q) st ≡ some u
      → (q.used < u) × (restore_quota_usage bolt now n (some (record q { used = u })) st ≡ none)
  unfolding restore_quota_usage window_used starts_at_of
  restore_quota_usage_settles now n q st u told = ground (arith, told)
