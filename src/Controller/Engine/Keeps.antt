-- ===== src/Controller/Engine/Keeps.antt =====
-- What bringing a node to its engine leaves alone, also when it fails.
use gost_webui.Prelude.{
  ◌≡◌, refl, Bool, true, false, Option, none, some, List, [], ◌∷◌, string_eq, Bool-cases, inl, inr,
}
use gost_webui.Model.{Node, is_reality}
use gost_webui.Bolt.{Bolt}
use gost_webui.Store.{Result, ok, err, list_nodes}
use gost_webui.Gostmgr.Schema.{Config, BuildOptions, Windows}
use gost_webui.Gostmgr.Client.{Gost, ApiError}
use gost_webui.Gostmgr.Config.{build_config}
use gost_webui.Singbox.{Pool}
use gost_webui.Controller.Engine.{
  Panel, load_nodes, apply_node, apply_reality, apply_pool, apply_gost, applied, sync_config_file,
  write_listed, write_file, remove_node, delete_all, resources_of,
}

module _ (bolt : Bolt) (gost : Gost) where
  -- The store and the cached nodes are as they were.
  pub record Keeps (p p' : Panel bolt gost) : Type 0 where
    pub store : p'.store ≡ p.store
    pub nodes : p'.nodes ≡ p.nodes

  Keeps_refl : (p : Panel bolt gost) → Keeps p p
  Keeps_refl p = record { store = refl; nodes = refl }

  write_file-Keeps :
      (cfg : Config) (outcomes : List Bool) (p : Panel bolt gost)
      → Keeps p (write_file bolt gost cfg outcomes p).0
  unfolding write_file
  write_file-Keeps cfg [] p = record { store = refl; nodes = refl }
  write_file-Keeps cfg (true ∷ rest) p = record { store = refl; nodes = refl }
  write_file-Keeps cfg (false ∷ rest) p = record { store = refl; nodes = refl }

  write_listed-Keeps :
      (w : Windows) (opts : BuildOptions) (r : Result (List Node)) (p : Panel bolt gost)
      → Keeps p (write_listed bolt gost w opts r p).0
  unfolding write_listed
  write_listed-Keeps w opts (ok ns) p = write_file-Keeps _ p.writes p
  write_listed-Keeps w opts (err e) p = Keeps_refl p

  sync_config_file-Keeps :
      (w : Windows) (opts : BuildOptions) (p : Panel bolt gost)
      → Keeps p (sync_config_file bolt gost w opts p).0
  unfolding sync_config_file
  sync_config_file-Keeps w opts p = write_listed-Keeps w opts _ p

  applied-Keeps :
      (w : Windows) (opts : BuildOptions) (e : Option ApiError) (p : Panel bolt gost)
      → Keeps p (applied bolt gost w opts e p).0
  unfolding applied
  applied-Keeps w opts none p = sync_config_file-Keeps w opts p
  applied-Keeps w opts (some e) p = Keeps_refl p

  -- A node that sing-box carries concerns neither gost nor its file.
  pub record OnlyPool (p p' : Panel bolt gost) : Type 0 where
    pub kept : Keeps p p'
    pub gost_state : p'.gost_state ≡ p.gost_state
    pub file : p'.file ≡ p.file

  apply_pool-OnlyPool :
      (n : Node) (pool : Option Pool) (p : Panel bolt gost)
      → OnlyPool p (apply_pool bolt gost n pool p).0
  unfolding apply_pool
  apply_pool-OnlyPool n none p = record { kept = Keeps_refl p; gost_state = refl; file = refl }
  apply_pool-OnlyPool n (some pool) p = record {
    kept = record { store = refl; nodes = refl };
    gost_state = refl;
    file = refl;
  }

  pub apply_node-OnlyPool :
      (w : Windows) (opts : BuildOptions) (n : Node) (p : Panel bolt gost)
      → is_reality n ≡ true
      → OnlyPool p (apply_node bolt gost w opts n p).0
  unfolding apply_node apply_reality
  apply_node-OnlyPool w opts n p sing = rw sing (apply_pool-OnlyPool n p.pool p)

  pub apply_node-Keeps :
      (w : Windows) (opts : BuildOptions) (n : Node) (p : Panel bolt gost)
      → Keeps p (apply_node bolt gost w opts n p).0
  unfolding apply_node apply_reality
  apply_node-Keeps w opts n p = elim (Bool-cases (is_reality n)) [
    | inl sing ↦ rw sing (apply_pool-OnlyPool n p.pool p).kept
    | inr other ↦
        let g = (apply_gost gost (build_config w opts (n ∷ [])) n p.gost_state).0 in
        let k =
          applied-Keeps w opts (apply_gost gost (build_config w opts (n ∷ [])) n p.gost_state).1
            (record p { gost_state = g }) in
        rw other (record { store = k.store; nodes = k.nodes })
  ]

  pub remove_node-Keeps :
      (w : Windows) (opts : BuildOptions) (n : Node) (p : Panel bolt gost)
      → Keeps p (remove_node bolt gost w opts n p).0
  unfolding remove_node
  remove_node-Keeps w opts n p = elim (Bool-cases (is_reality n)) [
    | inl sing ↦ rw sing (record { store = refl; nodes = refl })
    | inr other ↦
        let g = (delete_all bolt gost (resources_of n) p.gost_state).0 in
        let k = sync_config_file-Keeps w opts (record p { gost_state = g }) in
        rw other (record { store = k.store; nodes = k.nodes })
  ]

  loaded-store :
      (r : Result (List Node)) (p : Panel bolt gost)
      → list_nodes bolt p.store ≡ r
      → (load_nodes bolt gost p).0.store ≡ p.store
  unfolding load_nodes
  loaded-store (ok ns) p e = rw (e, load_nodes) refl
  loaded-store (err x) p e = rw (e, load_nodes) refl

  pub load_nodes-store : (p : Panel bolt gost) → (load_nodes bolt gost p).0.store ≡ p.store
  load_nodes-store p = loaded-store (list_nodes bolt p.store) p refl

  loaded-gost :
      (r : Result (List Node)) (p : Panel bolt gost)
      → list_nodes bolt p.store ≡ r
      → let p' = (load_nodes bolt gost p).0 in (p'.gost_state ≡ p.gost_state) × (p'.file ≡ p.file)
  unfolding load_nodes
  loaded-gost (ok ns) p e = rw (e, load_nodes) (refl, refl)
  loaded-gost (err x) p e = rw (e, load_nodes) (refl, refl)

  pub load_nodes-gost :
      (p : Panel bolt gost)
      → let p' = (load_nodes bolt gost p).0 in (p'.gost_state ≡ p.gost_state) × (p'.file ≡ p.file)
  load_nodes-gost p = loaded-gost (list_nodes bolt p.store) p refl
