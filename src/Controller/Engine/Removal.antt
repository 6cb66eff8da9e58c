-- ===== src/Controller/Engine/Removal.antt =====
-- What removing a node leaves in gost.
use gost_webui.Prelude.{
  String, ◌≡◌, refl, ◌∙◌, Bool, false, ◌&&◌, ◌||◌, Option, none, some, List, [], ◌∷◌, ◌==◌,
  string_eq, eq_iff, Bool-cases, inl, inr, arith, if◌then◌else◌,
}
use gost_webui.Model.{Node, is_reality}
use gost_webui.Bolt.{Bolt}
use gost_webui.Gostmgr.Schema.{BuildOptions, Windows}
use gost_webui.Gostmgr.Client.{Gost, ApiError, delete}
use gost_webui.Gostmgr.Client.Effects.{delete-others, delete-done}
use gost_webui.Controller.Engine.{
  Failure, Panel, remove_node, delete_all, resources_of, sync_config_file, keep, api_failure,
}
use gost_webui.Controller.Engine.Nodes.{IsSynced, sync_config_file-IsSynced}

-- A kind and a name are in a list.
abbrev pub lists : String → String → List (String × String) → Bool
lists k name [] = false
lists k name ((kind, key) ∷ rest) = (kind == k && key == name) || lists k name rest

api_failure-none : (e : Option ApiError) → api_failure e ≡ none → e ≡ none
unfolding api_failure
api_failure-none none h = refl
api_failure-none (some e) h = cc

keep-none : (a b : Option Failure) → keep a b ≡ none → (a ≡ none) × (b ≡ none)
keep-none none b h = (refl, h)
keep-none (some a) b h = cc

module _ (bolt : Bolt) (gost : Gost) where
  open gost use {State, view}

  delete_view :
      (kind key : String) (s : State) (k name : String)
      → (delete gost kind key s).1 ≡ none
      → view (delete gost kind key s).0 k name
        ≡ (if kind == k && key == name then none else view s k name)
  delete_view kind key s k name done = elim (Bool-cases (kind == k && key == name)) [
    | inr other ↦ rw other (delete-others gost kind key s k name other)
    | inl same ↦
        let one : kind ≡ k = ground (arith, same, eq_iff kind k) in
        let two : key ≡ name = ground (arith, same, eq_iff key name) in
        rw (same, ← one, ← two) (delete-done gost kind key s done)
  ]

  delete_all-done :
      (rs : List (String × String)) (s : State) (k name : String)
      → (delete_all bolt gost rs s).1 ≡ none
      → view (delete_all bolt gost rs s).0 k name
        ≡ (if lists k name rs then none else view s k name)
  unfolding delete_all
  delete_all-done [] s k name done = refl
  delete_all-done ((kind, key) ∷ rest) s k name done =
      let (first, others) = keep-none _ _ done in
      let deleted = delete_view kind key s k name (api_failure-none _ first) in
      delete_all-done rest (delete gost kind key s).0 k name others ∙ ground (arith, deleted)

  on_gost : Windows → BuildOptions → Node → Panel bolt gost → Panel bolt gost × Option Failure
  on_gost w opts n p =
      let r = delete_all bolt gost (resources_of n) p.gost_state in
      let q = sync_config_file bolt gost w opts (record p { gost_state = r.0 }) in
      (q.0, keep r.1 q.1)

  remove_node-on_gost :
      (w : Windows) (opts : BuildOptions) (n : Node) (p : Panel bolt gost)
      → is_reality n ≡ false
      → remove_node bolt gost w opts n p ≡ on_gost w opts n p
  unfolding remove_node on_gost
  remove_node-on_gost w opts n p other = rw other refl

  on_gost-IsRemoved :
      (w : Windows) (opts : BuildOptions) (n : Node) (p : Panel bolt gost)
      → (on_gost w opts n p).1 ≡ none
      → let p' = (on_gost w opts n p).0 in
        ((k name : String)
          → view p'.gost_state k name
            ≡ (if lists k name (resources_of n) then none else view p.gost_state k name))
        × IsSynced bolt gost w opts (record p { gost_state = p'.gost_state }) p'
  unfolding on_gost
  on_gost-IsRemoved w opts n p done =
      let r = delete_all bolt gost (resources_of n) p.gost_state in
      let (deleted, written) = keep-none r.1 _ done in
      let synced =
        sync_config_file-IsSynced bolt gost w opts (record p { gost_state = r.0 }) written in
      (
        λ k name.
            rw synced.gost_kept (delete_all-done (resources_of n) p.gost_state k name deleted),
        record {
          stored = synced.stored;
          listed = synced.listed;
          written = synced.written;
          store_kept = synced.store_kept;
          gost_kept = refl;
          nodes_kept = synced.nodes_kept;
          pool_kept = synced.pool_kept;
        },
      )

  -- When `RemoveNode` of a node that gost carries reports no error, the node's services, quota and limits are
  -- gone from gost, all other names stand for what they did, and the configuration file is that of the stored
  -- nodes.
  pub remove_node_lem :
      (w : Windows) (opts : BuildOptions) (n : Node) (p : Panel bolt gost)
      → is_reality n ≡ false
      → (remove_node bolt gost w opts n p).1 ≡ none
      → let p' = (remove_node bolt gost w opts n p).0 in
        ((k name : String)
          → view p'.gost_state k name
            ≡ (if lists k name (resources_of n) then none else view p.gost_state k name))
        × IsSynced bolt gost w opts (record p { gost_state = p'.gost_state }) p'
  remove_node_lem w opts n p other done =
      rw (remove_node-on_gost w opts n p other)
        (on_gost-IsRemoved w opts n p (rw (← remove_node-on_gost w opts n p other) done))
