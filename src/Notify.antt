-- ===== src/Notify.antt =====
-- internal/notify/notify.go: notices by Telegram, with a cooldown for each subject. Times are
-- nanoseconds. A post is an entry of `outbox`: what Telegram answers changes nothing here.
pub mod Cooldown
mod Tests
use Prim.Native.Char.{Char, code}
use Prim.Native.String.{[], ◌∷◌, ◌++◌ as join}
use mathlib.Core.List
use mathlib.Core.List.{List}
use gost_webui.Prelude.{
  ℕ, ◌+◌, ◌-◌, ◌*◌, String, Bool, true, false, not, ◌&&◌, ◌||◌, Option, none, some, ltb, ◌==◌,
  nat_eq, string_eq, if◌then◌else◌, ◌++◌,
}
use gost_webui.Prelude.Maps.{Map, lookup, insert}
use gost_webui.Model.Text.{trim_space}
use gost_webui.Server.Guard.{second}

-- What a notice says; the program writes it out as HTML.
pub data Notice : Type 0 where
  node_up : String → Notice
  node_down : String → String → Notice
  clients_online : String → ℕ → Notice
  clients_offline : String → Notice
  quota_blocked : String → ℕ → ℕ → ℕ → Notice
  traffic_warning : String → ℕ → ℕ → ℕ → ℕ → Notice

pub record Config : Type 0 where
  pub enabled : Bool
  pub token : String
  pub chat_id : String
  -- `none` is a nil map
  pub events : Option (Map String Bool)
  -- in seconds
  pub cooldown : ℕ

pub record Post : Type 0 where
  pub chat : String
  pub notice : Notice

pub record Notifier : Type 0 where
  pub cfg : Config
  pub last : Map String ℕ
  pub outbox : List Post

true_or : Option Bool → Bool
true_or none = true
true_or (some v) = v

listed : String → Option (Map String Bool) → Bool
unfolding true_or
listed event none = true
listed event (some events) = true_or (lookup event events)

unfoldable pub event_enabled : String → Config → Bool
unfolding listed
event_enabled event cfg =
    cfg.enabled && not (cfg.token == "") && not (cfg.chat_id == "") && listed event cfg.events

-- `strings.Split` at commas: the part that is open, and the text that is left.
split_from : String → String → List String
split_from part [] = List.◌∷◌ part List.[]
split_from part (c ∷ s) =
    let here = List.◌∷◌ part (split_from "" s) in
    let more = split_from (join part (c ∷ [])) s in if code c == 44 then here else more

posts_to : Notice → List String → List Post
posts_to notice List.[] = List.[]
posts_to notice (List.◌∷◌ chat chats) =
    let rest = posts_to notice chats in
    if trim_space chat == ""
    then rest
    else List.◌∷◌ (record { chat = trim_space chat; notice = notice }) rest

abbrev pub cooldown_key : String → String → String
cooldown_key event key = join event (join "|" key)

-- The subject was sent less than a cooldown ago.
unfoldable pub is_recent : ℕ → ℕ → Option ℕ → Bool
is_recent now cooldown none = false
is_recent now cooldown (some t) = ltb (now - t) (cooldown * second)

unfoldable pub send : ℕ → String → String → Notice → Notifier → Notifier
unfolding split_from posts_to is_recent
send now event key notice n =
    let ck = cooldown_key event key in
    let posted = record n { outbox = n.outbox ++ posts_to notice (split_from "" n.cfg.chat_id) } in
    if not (event_enabled event n.cfg)
    then n
    else if key == ""
    then posted
    else if is_recent now n.cfg.cooldown (lookup ck n.last)
    then n
    else record posted { last = insert ck now n.last }
