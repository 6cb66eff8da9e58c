-- ===== src/Server/Settings.antt =====
-- internal/server/handlers_misc.go: the handler that changes the panel's settings, with the levels of
-- internal/config/config.go. A field that the request leaves out is none.
pub mod Ranges
mod Tests
use Prim.Native.String.{count}
use gost_webui.Prelude.{
  String, Bool, true, false, not, ◌&&◌, ◌||◌, Option, none, some, ltb, ◌==◌, string_eq,
  if◌then◌else◌,
}
use gost_webui.Prelude.Int.{ℤ, pos, int_ltb}
use gost_webui.Model.Text.{trim_space, to_lower, itoa}
use gost_webui.Bolt.{Bolt}
use gost_webui.Store.{set_setting}
use gost_webui.Gostmgr.Schema.{BuildOptions, Windows}
use gost_webui.Gostmgr.Client.{Gost}
use gost_webui.Controller.Engine.{Panel, sync_config_file}
use gost_webui.Server.Nodes.{valid_hostname}

pub record SettingsInput : Type 0 where
  pub public_host : Option String
  pub site_title : Option String
  pub sample_seconds : Option ℤ
  pub retention_days : Option ℤ
  pub gost_log_level : Option String

unfoldable pub valid_gost_log_level : String → Bool
valid_gost_log_level v =
    let w = to_lower (trim_space v) in
    w == "off"
    || w == "trace"
    || w == "debug"
    || w == "info"
    || w == "warn"
    || w == "warning"
    || w == "error"

unfoldable pub normalize_gost_log_level : String → String
normalize_gost_log_level v =
    let w = to_lower (trim_space v) in
    let level = if w == "warning" then "warn" else w in
    if valid_gost_log_level level then level else ""

abbrev pub is_between : ℤ → ℤ → ℤ → Bool
is_between low high n = not (int_ltb n low) && not (int_ltb high n)

-- 200, with whether gost has to be restarted; 400; and 500.
pub data Reply : Type 0 where
  saved : Bool → Reply
  bad_host bad_title bad_level failed : Reply

is_none : {A : Type 0} → Option A → Bool
is_none none = true
is_none (some a) = false

module _ (bolt : Bolt) (gost : Gost) where
  -- What the controller runs with.
  pub record Running : Type 0 where
    pub panel : Panel bolt gost
    pub sample_seconds : ℤ
    pub retention_days : ℤ
    pub opts : BuildOptions
    -- gost's log file holds something
    pub has_log : Bool

  abbrev pub keep_setting : String → String → Running → Running × Bool
  keep_setting key value s =
      let (st, done) = set_setting bolt key value s.panel.store in
      (record s { panel = record s.panel { store = st } }, done)

  -- A setting whose error ends the request.
  must_keep : String → String → Running → Running × Option Reply
  must_keep key value s =
      let (s', done) = keep_setting key value s in (s', if done then none else some failed)

  set_host : Option String → Running → Running × Option Reply
  unfolding must_keep
  set_host none s = (s, none)
  set_host (some h) s =
      let host = trim_space h in
      if not (host == "") && not (valid_hostname host)
      then (s, some bad_host)
      else must_keep "public_host" host s

  set_title : Option String → Running → Running × Option Reply
  unfolding must_keep
  set_title none s = (s, none)
  set_title (some t) s =
      let title = trim_space t in
      if ltb 40 (count title) then (s, some bad_title) else must_keep "site_title" title s

  set_sample_seconds : Option ℤ → Running → Running
  set_sample_seconds none s = s
  set_sample_seconds (some n) s =
      if is_between (pos 5) (pos 3600) n
      then record (keep_setting "sample_seconds" (itoa n) s).0 { sample_seconds = n }
      else s

  set_retention_days : Option ℤ → Running → Running
  set_retention_days none s = s
  set_retention_days (some n) s =
      if is_between (pos 1) (pos 3650) n
      then record (keep_setting "retention_days" (itoa n) s).0 { retention_days = n }
      else s

  -- The file is written again; the log is emptied if it is switched off.
  rewritten : Windows → String → Running → Running × Reply
  unfolding is_none
  rewritten w level s =
      let (p, e) = sync_config_file bolt gost w s.opts s.panel in
      (
        record s { panel = p; has_log = if is_none e && level == "off" then false else s.has_log },
        saved (is_none e),
      )

  change_level : Windows → String → Running → Running × Reply
  unfolding rewritten
  change_level w level s =
      let (s', done) = keep_setting "gost_log_level" level s in
      if done
      then rewritten w level (record s' { opts = record s'.opts { log_level = level } })
      else (s', failed)

  unfoldable pub set_level : Windows → Option String → Running → Running × Reply
  unfolding change_level
  set_level w none s = (s, saved false)
  set_level w (some v) s =
      let level = normalize_gost_log_level v in
      if level == ""
      then (s, bad_level)
      else if not (level == s.opts.log_level)
      then change_level w level s
      else (s, saved false)

  -- What follows a step, unless it has ended the request.
  and_then : Running × Option Reply → (Running → Running × Reply) → Running × Reply
  and_then (s, none) k = k s
  and_then (s, some r) k = (s, r)

  unfoldable pub handle_update_settings : Windows → SettingsInput → Running → Running × Reply
  unfolding set_host set_title set_sample_seconds set_retention_days and_then
  handle_update_settings w in_ s = and_then (set_host in_.public_host s) (λ s'.
      and_then (set_title in_.site_title s') (λ s''.
        set_level w in_.gost_log_level
          (set_retention_days in_.retention_days (set_sample_seconds in_.sample_seconds s''))))
