-- ===== src/Server/Nodes/Handlers.antt =====
-- internal/server/handlers_nodes.go: the handlers that create, change, delete and switch nodes. A request
-- whose body does not decode is none. Notices are returned, to be sent by another goroutine.
pub mod Rollback
pub mod Changes
mod Tests
use gost_webui.Prelude.{
  String, Bool, Option, none, some, List, [], ◌∷◌, ◌==◌, string_eq, if◌then◌else◌,
}
use gost_webui.Model.{Node}
use gost_webui.Bolt.{Bolt}
use gost_webui.Store.{save_node, delete_node}
use gost_webui.Gostmgr.Schema.{BuildOptions, Windows}
use gost_webui.Gostmgr.Client.{Gost}
use gost_webui.Controller.Engine.{Failure, Panel, node, load_nodes, apply_node, remove_node}
use gost_webui.Server.Nodes.{NodeInput, Env, InputError, Checked, ok, bad}
use gost_webui.Server.Nodes.Build.{build_node}

-- 200 with the node, 200, 400, 404, and 500 for a transaction or a call of an engine that failed.
pub data Reply : Type 0 where
  shown : Node → Reply
  done malformed missing unsaved : Reply
  refused : InputError → Reply
  failed : Failure → Reply

pub data Notice : Type 0 where
  added deleted : Node → Notice

replace : Node → List Node → List Node
replace n [] = []
replace n (m ∷ ms) = let rest = replace n ms in if m.id == n.id then n ∷ ms else m ∷ rest

module _ (bolt : Bolt) (gost : Gost) where
  abbrev pub Handled : Type 0
  Handled = Panel bolt gost × Reply × Option Notice

  -- The end of `handleCreateNode`, from the error of `ApplyNode` on.
  settle_created : Windows → BuildOptions → Node → Panel bolt gost → Option Failure → Handled
  settle_created w opts n p none = ((load_nodes bolt gost p).0, shown n, some (added n))
  settle_created w opts n p (some e) =
      let p' = (remove_node bolt gost w opts n p).0 in
      (record p' { store = (delete_node bolt n.id p'.store).0 }, failed e, none)

  apply_created : Windows → BuildOptions → Node → Panel bolt gost → Handled
  apply_created w opts n p =
      let (p', e) = apply_node bolt gost w opts n p in settle_created w opts n p' e

  create_built : Env → Windows → BuildOptions → Checked Node → Panel bolt gost → Handled
  create_built env w opts (bad e) p = (p, refused e, none)
  create_built env w opts (ok n) p =
      let n' : Node = record n { created_at = env.now; updated_at = env.now } in
      let (st, saved) = save_node bolt n' p.store in
      if saved
      then apply_created w opts n' (record p { store = st })
      else (record p { store = st }, unsaved, none)

  pub handle_create_node :
      Env → Windows → BuildOptions → Option NodeInput → Panel bolt gost → Handled
  handle_create_node env w opts none p = (p, malformed, none)
  handle_create_node env w opts (some in_) p = create_built env w opts (build_node env in_ none) p

  -- The end of `handleUpdateNode`, from the error of `ApplyNode` on.
  settle_updated : Windows → BuildOptions → Node → Node → Panel bolt gost → Option Failure → Handled
  settle_updated w opts old n p none = (p, shown n, none)
  settle_updated w opts old n p (some e) =
      let (st, saved) = save_node bolt old p.store in
      let p' = record p { store = st } in
      let back = (apply_node bolt gost w opts old (load_nodes bolt gost p').0).0 in
      (if saved then back else p', failed e, none)

  apply_updated : Windows → BuildOptions → Node → Node → Panel bolt gost → Handled
  apply_updated w opts old n p =
      let (p', e) = apply_node bolt gost w opts n p in settle_updated w opts old n p' e

  pub update_built : Env → Windows → BuildOptions → Node → Checked Node → Panel bolt gost → Handled
  update_built env w opts old (bad e) p = (p, refused e, none)
  update_built env w opts old (ok n) p =
      let n' : Node = record n {
        id = old.id;
        created_at = old.created_at;
        updated_at = env.now;
        total_in = old.total_in;
        total_out = old.total_out;
      } in
      let (st, saved) = save_node bolt n' p.store in
      if saved
      then apply_updated w opts old n' (load_nodes bolt gost (record p { store = st })).0
      else (record p { store = st }, unsaved, none)

  update_found :
      Env → Windows → BuildOptions → Option NodeInput → Option Node → Panel bolt gost → Handled
  update_found env w opts body none p = (p, missing, none)
  update_found env w opts none (some old) p = (p, malformed, none)
  update_found env w opts (some in_) (some old) p =
      update_built env w opts old (build_node env in_ (some old)) p

  pub handle_update_node :
      Env → Windows → BuildOptions → String → Option NodeInput → Panel bolt gost → Handled
  handle_update_node env w opts id body p = update_found env w opts body (node bolt gost id p) p

  delete_found : Windows → BuildOptions → Option Node → Panel bolt gost → Handled
  delete_found w opts none p = (p, missing, none)
  delete_found w opts (some n) p =
      let p' = (remove_node bolt gost w opts n p).0 in
      let (st, gone) = delete_node bolt n.id p'.store in
      if gone
      then ((load_nodes bolt gost (record p' { store = st })).0, done, some (deleted n))
      else (record p' { store = st }, unsaved, none)

  pub handle_delete_node : Windows → BuildOptions → String → Panel bolt gost → Handled
  handle_delete_node w opts id p = delete_found w opts (node bolt gost id p) p

  settle_toggled : Node → Panel bolt gost → Option Failure → Handled
  settle_toggled n p none = (p, shown n, none)
  settle_toggled n p (some e) = (p, failed e, none)

  apply_toggled : Windows → BuildOptions → Node → Panel bolt gost → Handled
  apply_toggled w opts n p = let (p', e) = apply_node bolt gost w opts n p in settle_toggled n p' e

  -- The node is changed where it is cached, before it is saved.
  toggle_found :
      Env → Windows → BuildOptions → Option Bool → Option Node → Panel bolt gost → Handled
  toggle_found env w opts body none p = (p, missing, none)
  toggle_found env w opts none (some n) p = (p, malformed, none)
  toggle_found env w opts (some enabled) (some n) p =
      let n' : Node = record n { enabled = enabled; updated_at = env.now } in
      let p' = record p { nodes = replace n' p.nodes } in
      let (st, saved) = save_node bolt n' p.store in
      if saved
      then apply_toggled w opts n' (load_nodes bolt gost (record p' { store = st })).0
      else (record p' { store = st }, unsaved, none)

  pub handle_toggle_node :
      Env → Windows → BuildOptions → String → Option Bool → Panel bolt gost → Handled
  handle_toggle_node env w opts id body p = toggle_found env w opts body (node bolt gost id p) p
