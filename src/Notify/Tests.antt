-- ===== src/Notify/Tests.antt =====
-- Two notices on one node.
use gost_webui.Prelude.{◌*◌, String, ◌≡◌, refl, true, false, none, [], arith, eq_iff, string_eq}
use gost_webui.Prelude.Maps.{lookup}
use gost_webui.Server.Guard.{second}
use gost_webui.Notify.{node_up, Notifier, event_enabled, cooldown_key, is_recent, send}
use gost_webui.Notify.Cooldown.{send_again}

abbrev telegram : Notifier
telegram = record {
  cfg = record { enabled = true; token = "t"; chat_id = "1, 2"; events = none; cooldown = 600 };
  last = [];
  outbox = [];
}

abbrev key : String
key = "a"

is_enabled : event_enabled "nodeUp" telegram.cfg ≡ true
unfolding event_enabled
is_enabled = refl

is_due : is_recent second 600 (lookup (cooldown_key "nodeUp" key) telegram.last) ≡ false
unfolding is_recent lookup
is_due = refl

send_again_example :
    send (2 * second) "nodeUp" key (node_up key) (send second "nodeUp" key (node_up key) telegram)
    ≡ send second "nodeUp" key (node_up key) telegram
send_again_example =
    send_again second (2 * second) "nodeUp" key (node_up key) (node_up key) telegram
      (ground (arith, eq_iff key "")) is_enabled is_due (omega arith)
