-- ===== src/Server/Settings/Ranges.antt =====
-- The settings stay in their ranges, and gost's configuration file follows the level of its log.
use gost_webui.Prelude.{
  String, ◌≡◌, refl, ap, ◌∙◌, true, not, ◌&&◌, Option, none, some, List, ◌==◌, string_eq,
  Bool-cases, inl, inr, ltb,
}
use Prim.Native.String.{count}
use gost_webui.Prelude.Int.{ℤ, pos}
use gost_webui.Model.Text.{trim_space}
use gost_webui.Bolt.{Bolt}
use gost_webui.Model.{Node}
use gost_webui.Store.{list_nodes, ok}
use gost_webui.Gostmgr.Config.{build_config}
use gost_webui.Gostmgr.Schema.{Windows}
use gost_webui.Gostmgr.Client.{Gost}
use gost_webui.Controller.Engine.Nodes.{sync_config_file-IsSynced}
use gost_webui.Server.Nodes.{valid_hostname}
use gost_webui.Server.Settings.{
  SettingsInput, is_between, Reply, saved, is_none, Running, keep_setting, must_keep, set_host,
  set_title, set_sample_seconds, set_retention_days, rewritten, change_level, set_level,
  normalize_gost_log_level, and_then, handle_update_settings,
}

module _ (bolt : Bolt) (gost : Gost) where
  -- The interval of samples and the days that traffic is kept.
  pub record IsInRange (s : Running bolt gost) : Type 0 where
    pub sample : is_between (pos 5) (pos 3600) s.sample_seconds ≡ true
    pub retention : is_between (pos 1) (pos 3650) s.retention_days ≡ true

  -- Another state with the same numbers.
  record SameNumbers (s s' : Running bolt gost) : Type 0 where
    sample : s'.sample_seconds ≡ s.sample_seconds
    retention : s'.retention_days ≡ s.retention_days

  InRange-same : (s s' : Running bolt gost) → SameNumbers s s' → IsInRange s → IsInRange s'
  InRange-same s s' e h = record {
    sample = ap (is_between (pos 5) (pos 3600)) e.sample ∙ h.sample;
    retention = ap (is_between (pos 1) (pos 3650)) e.retention ∙ h.retention;
  }

  same_refl : (s : Running bolt gost) → SameNumbers s s
  same_refl s = record { sample = refl; retention = refl }

  set_host-same :
      (h : Option String) (s : Running bolt gost) → SameNumbers s (set_host bolt gost h s).0
  unfolding set_host must_keep
  set_host-same none s = same_refl s
  set_host-same (some h) s =
      elim (Bool-cases (not (trim_space h == "") && not (valid_hostname (trim_space h)))) [
        | inl invalid ↦ rw invalid (same_refl s)
        | inr valid ↦ rw valid (record { sample = refl; retention = refl })
      ]

  set_title-same :
      (t : Option String) (s : Running bolt gost) → SameNumbers s (set_title bolt gost t s).0
  unfolding set_title must_keep
  set_title-same none s = same_refl s
  set_title-same (some t) s = elim (Bool-cases (ltb 40 (count (trim_space t)))) [
    | inl long ↦ rw long (same_refl s)
    | inr short ↦ rw short (record { sample = refl; retention = refl })
  ]

  set_sample_seconds-IsInRange :
      (o : Option ℤ) (s : Running bolt gost)
      → IsInRange s
      → IsInRange (set_sample_seconds bolt gost o s)
  unfolding set_sample_seconds
  set_sample_seconds-IsInRange none s h = h
  set_sample_seconds-IsInRange (some n) s h = elim (Bool-cases (is_between (pos 5) (pos 3600) n)) [
    | inl fits ↦ rw fits (record { sample = fits; retention = h.retention })
    | inr other ↦ rw other h
  ]

  set_retention_days-IsInRange :
      (o : Option ℤ) (s : Running bolt gost)
      → IsInRange s
      → IsInRange (set_retention_days bolt gost o s)
  unfolding set_retention_days
  set_retention_days-IsInRange none s h = h
  set_retention_days-IsInRange (some n) s h = elim (Bool-cases (is_between (pos 1) (pos 3650) n)) [
    | inl fits ↦ rw fits (record { sample = h.sample; retention = fits })
    | inr other ↦ rw other h
  ]

  -- The file is that of the stored nodes, with the options that the panel now runs with.
  abbrev pub IsWritten : Windows → Running bolt gost → Type 0
  IsWritten w s =
      (ns : List Node) × (list_nodes bolt s.panel.store ≡ ok ns)
      × (s.panel.file ≡ some (build_config w s.opts ns))

  -- What the change of the level leaves.
  record IsLeveled (w : Windows) (s : Running bolt gost) (r : Running bolt gost × Reply)
      : Type 0 where
    numbers : SameNumbers s r.0
    written : r.1 ≡ saved true → IsWritten w r.0

  none-is_none : {A : Type 0} (o : Option A) → saved (is_none o) ≡ saved true → o ≡ none
  unfolding is_none
  none-is_none none q = refl
  none-is_none (some a) q = cc

  rewritten-IsLeveled :
      (w : Windows) (level : String) (s : Running bolt gost)
      → IsLeveled w s (rewritten bolt gost w level s)
  unfolding rewritten
  rewritten-IsLeveled w level s = record {
    numbers = record { sample = refl; retention = refl };
    written = λ q.
        let y = sync_config_file-IsSynced bolt gost w s.opts s.panel (none-is_none _ q) in
        (y.stored, ap (list_nodes bolt) y.store_kept ∙ y.listed, y.written);
  }

  not_saved :
      {r : Reply}
      → ¬ (r ≡ saved true)
      → (w : Windows) (s s' : Running bolt gost) → SameNumbers s s'
      → IsLeveled w s (s', r)
  not_saved unlike w s s' e = record { numbers = e; written = λ q. absurd (unlike q) }

  change_level-IsLeveled :
      (w : Windows) (level : String) (s : Running bolt gost)
      → IsLeveled w s (change_level bolt gost w level s)
  unfolding change_level
  change_level-IsLeveled w level s =
      let (s', done) = keep_setting bolt gost "gost_log_level" level s in
      elim (Bool-cases done) [
        | inl kept ↦
            let l =
              rewritten-IsLeveled w level
                (record s' { opts = record s'.opts { log_level = level } }) in
            rw kept (record {
              numbers = record { sample = l.numbers.sample; retention = l.numbers.retention };
              written = l.written;
            })
        | inr lost ↦
            rw lost (not_saved (λ q. cc) w s s' (record { sample = refl; retention = refl }))
      ]

  set_level-IsLeveled :
      (w : Windows) (o : Option String) (s : Running bolt gost)
      → IsLeveled w s (set_level bolt gost w o s)
  unfolding set_level
  set_level-IsLeveled w none s = not_saved (λ q. cc) w s s (same_refl s)
  set_level-IsLeveled w (some v) s =
      let level = normalize_gost_log_level v in
      elim (Bool-cases (level == "")) [
        | inl unknown ↦ rw unknown (not_saved (λ q. cc) w s s (same_refl s))
        | inr known ↦ elim (Bool-cases (level == s.opts.log_level)) [
          | inl same ↦ rw (known, same) (not_saved (λ q. cc) w s s (same_refl s))
          | inr new ↦ rw (known, new) (change_level-IsLeveled w level s)
        ]
      ]

  -- What a request leaves.
  abbrev IsKept : Windows → Running bolt gost × Reply → Type 0
  IsKept w r = IsInRange r.0 × (r.1 ≡ saved true → IsWritten w r.0)

  and_then-IsKept :
      (w : Windows) (m : Running bolt gost × Option Reply)
      (k : Running bolt gost → Running bolt gost × Reply)
      → IsInRange m.0
      → ((r : Reply) → m.1 ≡ some r → ¬ (r ≡ saved true))
      → ((s : Running bolt gost) → IsInRange s → IsKept w (k s))
      → IsKept w (and_then bolt gost m k)
  unfolding and_then
  and_then-IsKept w (s, none) k h unlike next = next s h
  and_then-IsKept w (s, some r) k h unlike next = (h, λ q. absurd (unlike r refl q))

  set_host-error :
      (o : Option String) (s : Running bolt gost) (r : Reply)
      → (set_host bolt gost o s).1 ≡ some r
      → ¬ (r ≡ saved true)
  unfolding set_host must_keep
  set_host-error none s r q e = cc
  set_host-error (some h) s r q e =
      elim (Bool-cases (not (trim_space h == "") && not (valid_hostname (trim_space h)))) [
        | inl invalid ↦ cc (rw invalid at q)
        | inr valid ↦ elim (Bool-cases (keep_setting bolt gost "public_host" (trim_space h) s).1) [
          | inl kept ↦ cc (rw (valid, kept) at q)
          | inr lost ↦ cc (rw (valid, lost) at q)
        ]
      ]

  set_title-error :
      (o : Option String) (s : Running bolt gost) (r : Reply)
      → (set_title bolt gost o s).1 ≡ some r
      → ¬ (r ≡ saved true)
  unfolding set_title must_keep
  set_title-error none s r q e = cc
  set_title-error (some t) s r q e = elim (Bool-cases (ltb 40 (count (trim_space t)))) [
    | inl long ↦ cc (rw long at q)
    | inr short ↦ elim (Bool-cases (keep_setting bolt gost "site_title" (trim_space t) s).1) [
      | inl kept ↦ cc (rw (short, kept) at q)
      | inr lost ↦ cc (rw (short, lost) at q)
    ]
  ]

  -- Whatever a request asks for, samples are taken every 5 to 3600 seconds and traffic is kept for 1 to 3650
  -- days, if they were so; and where the answer says that gost has to be restarted, gost's configuration file
  -- is that of the stored nodes with the options that the panel now runs with.
  pub handle_update_settings_lem :
      (w : Windows) (in_ : SettingsInput) (s : Running bolt gost)
      → IsInRange s
      → let r = handle_update_settings bolt gost w in_ s in
        IsInRange r.0
        × (r.1 ≡ saved true
            → (ns : List Node) × (list_nodes bolt r.0.panel.store ≡ ok ns)
              × (r.0.panel.file ≡ some (build_config w r.0.opts ns)))
  unfolding handle_update_settings
  handle_update_settings_lem w in_ s h =
      and_then-IsKept w (set_host bolt gost in_.public_host s) _
        (InRange-same s _ (set_host-same in_.public_host s) h) (set_host-error in_.public_host s)
        (λ s' h'.
          and_then-IsKept w (set_title bolt gost in_.site_title s') _
            (InRange-same s' _ (set_title-same in_.site_title s') h')
            (set_title-error in_.site_title s')
            (λ s'' h''.
              let n = set_sample_seconds bolt gost in_.sample_seconds s'' in
              let d = set_retention_days bolt gost in_.retention_days n in
              let hd =
                set_retention_days-IsInRange in_.retention_days n
                  (set_sample_seconds-IsInRange in_.sample_seconds s'' h'') in
              let l = set_level-IsLeveled w in_.gost_log_level d in
              (InRange-same d _ l.numbers hd, l.written)))
