-- ===== src/Controller/Engine/Nodes.antt =====
-- What bringing a node to gost and removing it leave.
use gost_webui.Prelude.{
  String, ◌≡◌, refl, Bool, true, false, Option, none, some, List, [], ◌∷◌, string_eq,
}
use gost_webui.Model.{Node, is_reality}
use gost_webui.Bolt.{Bolt}
use gost_webui.Store.{Result, ok, err, list_nodes}
use gost_webui.Gostmgr.Schema.{Config, BuildOptions, Windows}
use gost_webui.Gostmgr.Config.{build_config}
use gost_webui.Gostmgr.Client.{Gost, ApiError}
use gost_webui.Controller.Engine.{
  Failure, Panel, apply_gost, apply_node, sync_config_file, write_file, write_listed, applied,
}
use gost_webui.Controller.Engine.Services.{placed, Sets, apply_gost-Sets}

services-build_config_disabled :
    (w : Windows) (opts : BuildOptions) (n : Node)
    → n.enabled ≡ false
    → (build_config w opts (n ∷ [])).services ≡ []
unfolding build_config
services-build_config_disabled w opts n off = rw off refl

module _ (bolt : Bolt) (gost : Gost) where
  -- The configuration file is that of the stored nodes, and only it and the outcomes of writes have changed.
  pub record IsSynced (w : Windows) (opts : BuildOptions) (p p' : Panel bolt gost) : Type 0 where
    pub stored : List Node
    pub listed : list_nodes bolt p.store ≡ ok stored
    pub written : p'.file ≡ some (build_config w opts stored)
    pub store_kept : p'.store ≡ p.store
    pub gost_kept : p'.gost_state ≡ p.gost_state
    pub nodes_kept : p'.nodes ≡ p.nodes
    pub pool_kept : p'.pool ≡ p.pool

  write_file-done :
      (cfg : Config) (outcomes : List Bool) (p : Panel bolt gost)
      → (write_file bolt gost cfg outcomes p).1 ≡ none
      → let p' = (write_file bolt gost cfg outcomes p).0 in
        (p'.file ≡ some cfg)
        × (p'.store ≡ p.store)
        × (p'.gost_state ≡ p.gost_state)
        × (p'.nodes ≡ p.nodes)
        × (p'.pool ≡ p.pool)
  unfolding write_file
  write_file-done cfg [] p done = (refl, refl, refl, refl, refl)
  write_file-done cfg (true ∷ rest) p done = (refl, refl, refl, refl, refl)
  write_file-done cfg (false ∷ rest) p done = cc

  write_listed-IsSynced :
      (w : Windows) (opts : BuildOptions) (r : Result (List Node)) (p : Panel bolt gost)
      → list_nodes bolt p.store ≡ r
      → (write_listed bolt gost w opts r p).1 ≡ none
      → IsSynced w opts p (write_listed bolt gost w opts r p).0
  unfolding write_listed
  write_listed-IsSynced w opts (ok ns) p listed done =
      let (written, store, state, nodes, pool) =
        write_file-done (build_config w opts ns) p.writes p done in
      record {
        stored = ns;
        listed = listed;
        written = written;
        store_kept = store;
        gost_kept = state;
        nodes_kept = nodes;
        pool_kept = pool;
      }
  write_listed-IsSynced w opts (err e) p listed done = cc

  pub sync_config_file-IsSynced :
      (w : Windows) (opts : BuildOptions) (p : Panel bolt gost)
      → (sync_config_file bolt gost w opts p).1 ≡ none
      → IsSynced w opts p (sync_config_file bolt gost w opts p).0
  unfolding sync_config_file
  sync_config_file-IsSynced w opts p done =
      write_listed-IsSynced w opts (list_nodes bolt p.store) p refl done

  applied-done :
      (w : Windows) (opts : BuildOptions) (e : Option ApiError) (p : Panel bolt gost)
      → (applied bolt gost w opts e p).1 ≡ none
      → (e ≡ none) × IsSynced w opts p (applied bolt gost w opts e p).0
  unfolding applied
  applied-done w opts none p done = (refl, sync_config_file-IsSynced w opts p done)
  applied-done w opts (some e) p done = cc

  -- `ApplyNode` of a node that gost carries.
  on_gost : Windows → BuildOptions → Node → Panel bolt gost → Panel bolt gost × Option Failure
  on_gost w opts n p =
      let r = apply_gost gost (build_config w opts (n ∷ [])) n p.gost_state in
      applied bolt gost w opts r.1 (record p { gost_state = r.0 })

  apply_node-on_gost :
      (w : Windows) (opts : BuildOptions) (n : Node) (p : Panel bolt gost)
      → is_reality n ≡ false
      → apply_node bolt gost w opts n p ≡ on_gost w opts n p
  unfolding apply_node on_gost
  apply_node-on_gost w opts n p other = rw other refl

  IsBrought : Windows → BuildOptions → Node → Panel bolt gost → Panel bolt gost → Type 0
  IsBrought w opts n p p' =
      ((name : String)
        → gost.view p'.gost_state "services" name
          ≡ placed n (build_config w opts (n ∷ [])).services name
              (gost.view p.gost_state "services" name))
      × IsSynced w opts (record p { gost_state = p'.gost_state }) p'

  on_gost-IsBrought :
      (w : Windows) (opts : BuildOptions) (n : Node) (p : Panel bolt gost)
      → (on_gost w opts n p).1 ≡ none
      → IsBrought w opts n p (on_gost w opts n p).0
  unfolding on_gost IsBrought Sets
  on_gost-IsBrought w opts n p done =
      let cfg = build_config w opts (n ∷ []) in
      let r = apply_gost gost cfg n p.gost_state in
      let (sent, synced) = applied-done w opts r.1 (record p { gost_state = r.0 }) done in
      (
        λ name. rw synced.gost_kept (
            apply_gost-Sets gost cfg n (services-build_config_disabled w opts n) p.gost_state sent
              name),
        record {
          stored = synced.stored;
          listed = synced.listed;
          written = synced.written;
          store_kept = synced.store_kept;
          gost_kept = refl;
          nodes_kept = synced.nodes_kept;
          pool_kept = synced.pool_kept;
        },
      )

  -- When `ApplyNode` of a node that gost carries reports no error, gost runs the services of the node's
  -- configuration, under the node's names nothing else, and all other services as before; and the
  -- configuration file is that of the stored nodes. Nothing else of the panel has changed.
  pub apply_node_lem :
      (w : Windows) (opts : BuildOptions) (n : Node) (p : Panel bolt gost)
      → is_reality n ≡ false
      → (apply_node bolt gost w opts n p).1 ≡ none
      → let p' = (apply_node bolt gost w opts n p).0 in
        ((name : String)
          → gost.view p'.gost_state "services" name
            ≡ placed n
                (build_config w opts (n ∷ [])).services
                name
                (gost.view p.gost_state "services" name))
        × IsSynced w opts (record p { gost_state = p'.gost_state }) p'
  unfolding IsBrought
  apply_node_lem w opts n p other done =
      rw (apply_node-on_gost w opts n p other)
        (on_gost-IsBrought w opts n p (rw (← apply_node-on_gost w opts n p other) done))
