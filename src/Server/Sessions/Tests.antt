-- ===== src/Server/Sessions/Tests.antt =====
-- A session on a store that is kept in lists.
use gost_webui.Prelude.{◌+◌, ◌*◌, String, ◌≡◌, ◌≢◌, refl, true, some, [], ◌∷◌, arith}
use gost_webui.Prelude.Maps.{lookup}
use gost_webui.Bolt.Lists.{list_bolt}
use gost_webui.Store.{open_new}
use gost_webui.Store.Logins.{save_session, prune_sessions}
use gost_webui.Server.Guard.{minute, second}
use gost_webui.Server.Sessions.{
  MemSession, Sessions, allowed, session_ttl, unix, create, get, new_session_store, auth, access_of,
  in_memory,
}
use gost_webui.Server.Sessions.Access.{IsGood, auth-IsGood, get-create_after_restart}

abbrev nobody : Sessions list_bolt
nobody = record { mem = []; store = open_new list_bolt [] }

abbrev kept : MemSession
kept = record { user = "admin"; ua = "ua"; expires = minute }

abbrev one : Sessions list_bolt
one = record { mem = ("c", kept) ∷ []; store = open_new list_bolt [] }

let_in : (auth list_bolt "c" "ua" second "admin" one).0 ≡ allowed
unfolding auth get in_memory access_of lookup
let_in = refl

abbrev cookie : String
cookie = "c"

auth-IsGood_example :
    (cookie ≢ "")
    × ((v : MemSession) × ((get list_bolt "c" "ua" second one).0 ≡ some v)
        × (v.user ≡ "admin")
        × IsGood list_bolt "ua" second v)
auth-IsGood_example = auth-IsGood list_bolt "c" "ua" second "admin" one let_in

session_saved :
    (save_session list_bolt "c"
      (record { user = "admin"; expires_at = unix (minute + session_ttl); ua = "ua" })
      nobody.store).1
    ≡ true
unfolding save_session
session_saved = refl

start_pruned :
    (prune_sessions list_bolt
      (unix (2 * minute))
      (create list_bolt "admin" "ua" "c" minute nobody).store).1
    ≡ true
unfolding prune_sessions create save_session
start_pruned = refl

get-create_after_restart_example :
    (get list_bolt "c" "ua" (2 * minute) (
      new_session_store list_bolt
        (2 * minute)
        (create list_bolt "admin" "ua" "c" minute nobody).store)).0
    ≡ some (record { user = "admin"; ua = "ua"; expires = unix (minute + session_ttl) * second })
get-create_after_restart_example =
    get-create_after_restart list_bolt "admin" "ua" "c" minute (2 * minute) nobody session_saved
      start_pruned (omega arith)
