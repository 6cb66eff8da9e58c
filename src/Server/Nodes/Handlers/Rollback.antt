-- ===== src/Server/Nodes/Handlers/Rollback.antt =====
-- What the store holds after a handler that failed, and after a deletion.
use gost_webui.Prelude.{
  ◌≡◌, refl, sym, ap, ◌∙◌, String, false, Option, none, some, List, [], ◌==◌, string_eq, Bool-cases,
  inl, inr, eq_iff, if◌then◌else◌,
}
use mathlib.Core.List.{Mem}
use gost_webui.Model.{Node, is_reality}
use gost_webui.Bolt.{Bolt}
use gost_webui.Store.{Store, Result, not_found, list_nodes, get_node, save_node, delete_node}
use gost_webui.Store
use gost_webui.Store.Gets.{
  get_node-save_node, get_node-delete_node, get_node-list_nodes, save_node-commits,
  delete_node-commits,
}
use gost_webui.Gostmgr.Schema.{BuildOptions, Windows}
use gost_webui.Gostmgr.Config.{build_config}
use gost_webui.Gostmgr.Client.{Gost}
use gost_webui.Controller.Engine.{
  Failure, Panel, node, load_nodes, apply_node, remove_node, resources_of,
}
use gost_webui.Controller.Engine.Keeps.{
  apply_node-Keeps, remove_node-Keeps, load_nodes-store, load_nodes-gost,
}
use gost_webui.Controller.Engine.Removal.{remove_node_lem, lists}
use gost_webui.Server.Nodes
use gost_webui.Server.Nodes.{NodeInput, InputError, Env, Checked}
use gost_webui.Server.Nodes.Build.{build_node}
use gost_webui.Server.Nodes.Ports.{DrawsFit}
use gost_webui.Server.Nodes.Build.Fits.{build_node_lem}
use gost_webui.Server.Nodes.Handlers.Changes.{updated, handle_update_node-found}
use gost_webui.Server.Nodes.Handlers.{
  shown, failed, refused, done, handle_create_node, create_built, apply_created, settle_created,
  handle_update_node, update_built, apply_updated, settle_updated, handle_delete_node, delete_found,
}

shown-ne-failed : (n : Node) (x : Failure) → ¬ (shown n ≡ failed x)
shown-ne-failed n x q = cc

refused-ne-failed : (e : InputError) (x : Failure) → ¬ (refused e ≡ failed x)
refused-ne-failed e x q = cc

module _ (bolt : Bolt) (gost : Gost) where
  -- What the store answers for an id.
  abbrev stored : String → Panel bolt gost → Result Node
  stored k p = get_node bolt k p.store

  settle_created-failed :
      (w : Windows) (opts : BuildOptions) (n : Node) (p : Panel bolt gost) (e : Option Failure)
      (x : Failure)
      → p.store.disk ≡ []
      → (settle_created bolt gost w opts n p e).1 ≡ failed x
      → (k : String)
      → stored k (settle_created bolt gost w opts n p e).0
        ≡ (if n.id == k then Store.err not_found else stored k p)
  unfolding settle_created
  settle_created-failed w opts n p none x safe h k = absurd (shown-ne-failed n x h)
  settle_created-failed w opts n p (some e) x safe h k =
      let kept = (remove_node-Keeps bolt gost w opts n p).store in
      rw kept
        (get_node-delete_node bolt k n.id p.store (delete_node-commits bolt n.id p.store safe).0)

  create_built-failed :
      (env : Env) (w : Windows) (opts : BuildOptions) (m : Checked Node) (p : Panel bolt gost)
      (x : Failure)
      → p.store.disk ≡ []
      → (create_built bolt gost env w opts m p).1 ≡ failed x
      → (n : Node) × (m ≡ Nodes.ok n)
        × ((k : String)
            → stored k (create_built bolt gost env w opts m p).0
              ≡ (if n.id == k then Store.err not_found else stored k p))
  unfolding create_built apply_created
  create_built-failed env w opts (Nodes.bad e) p x safe h = absurd (refused-ne-failed e x h)
  create_built-failed env w opts (Nodes.ok n) p x safe h =
      let n' : Node = record n { created_at = env.now; updated_at = env.now } in
      let (saved, safe') = save_node-commits bolt n' p.store safe in
      let p' = record p { store = (save_node bolt n' p.store).0 } in
      let q = apply_node bolt gost w opts n' p' in
      let kept = (apply_node-Keeps bolt gost w opts n' p').store in
      (
        n,
        refl,
        λ k. rw saved (
            settle_created-failed w opts n' q.0 q.1 x (ap (λ s. s.disk) kept ∙ safe')
              (rw saved at h) k
            ∙ elim (Bool-cases (n.id == k)) [
              | inl same ↦ rw same refl
              | inr other ↦ rw (other, kept, get_node-save_node bolt k n' p.store saved, other) refl
            ]),
      )

  handle_create_node-built :
      (env : Env) (w : Windows) (opts : BuildOptions) (in_ : NodeInput) (p : Panel bolt gost)
      → handle_create_node bolt gost env w opts (some in_) p
        ≡ create_built bolt gost env w opts (build_node env in_ none) p
  unfolding handle_create_node
  handle_create_node-built env w opts in_ p = refl

  -- When the creation of a node fails in an engine, the store answers for every id what it answered before.
  -- All transactions commit, the new id was not in the store, and random numbers lie below their bound.
  pub handle_create_node_rolled_back :
      (env : Env) (w : Windows) (opts : BuildOptions) (in_ : NodeInput) (p : Panel bolt gost)
      (x : Failure)
      → DrawsFit env.draws
      → p.store.disk ≡ []
      → get_node bolt env.fresh_id p.store ≡ Store.err not_found
      → (handle_create_node bolt gost env w opts (some in_) p).1 ≡ failed x
      → (k : String)
      → get_node bolt k (handle_create_node bolt gost env w opts (some in_) p).0.store
        ≡ get_node bolt k p.store
  handle_create_node_rolled_back env w opts in_ p x fit safe fresh h k =
      let e = handle_create_node-built env w opts in_ p in
      let (n, built, after) =
        create_built-failed env w opts (build_node env in_ none) p x safe (rw e at h) in
      let id : n.id ≡ env.fresh_id = (build_node_lem env in_ none n fit tt built).id in
      rw e (
        after k ∙ elim (Bool-cases (n.id == k)) [
          | inl same ↦
              rw same
                (sym fresh ∙ ap (λ j. get_node bolt j p.store) (sym id ∙ (eq_iff n.id k).0 same))
          | inr other ↦ rw other refl
        ])

  settle_updated-failed :
      (w : Windows) (opts : BuildOptions) (old n : Node) (p : Panel bolt gost) (e : Option Failure)
      (x : Failure)
      → p.store.disk ≡ []
      → (settle_updated bolt gost w opts old n p e).1 ≡ failed x
      → (k : String)
      → stored k (settle_updated bolt gost w opts old n p e).0
        ≡ (if old.id == k then Store.ok old else stored k p)
  unfolding settle_updated
  settle_updated-failed w opts old n p none x safe h k = absurd (shown-ne-failed n x h)
  settle_updated-failed w opts old n p (some e) x safe h k =
      let (saved, _) = save_node-commits bolt old p.store safe in
      let p' = record p { store = (save_node bolt old p.store).0 } in
      let p'' = (load_nodes bolt gost p').0 in
      rw (saved, (apply_node-Keeps bolt gost w opts old p'').store, load_nodes-store bolt gost p')
        (get_node-save_node bolt k old p.store saved)

  update_built-failed :
      (env : Env) (w : Windows) (opts : BuildOptions) (old : Node) (m : Checked Node)
      (p : Panel bolt gost) (x : Failure)
      → p.store.disk ≡ []
      → (update_built bolt gost env w opts old m p).1 ≡ failed x
      → (k : String)
      → stored k (update_built bolt gost env w opts old m p).0
        ≡ (if old.id == k then Store.ok old else stored k p)
  unfolding update_built apply_updated
  update_built-failed env w opts old (Nodes.bad e) p x safe h k = absurd (refused-ne-failed e x h)
  update_built-failed env w opts old (Nodes.ok n) p x safe h k =
      let n' = updated env old n in
      let (saved, safe') = save_node-commits bolt n' p.store safe in
      let p' = record p { store = (save_node bolt n' p.store).0 } in
      let p'' = (load_nodes bolt gost p').0 in
      let q = apply_node bolt gost w opts n' p'' in
      let kept : q.0.store ≡ p'.store =
        (apply_node-Keeps bolt gost w opts n' p'').store ∙ load_nodes-store bolt gost p' in
      rw saved (
        settle_updated-failed w opts old n' q.0 q.1 x (ap (λ s. s.disk) kept ∙ safe')
          (rw saved at h) k
        ∙ elim (Bool-cases (old.id == k)) [
          | inl same ↦ rw same refl
          | inr other ↦ rw (other, kept, get_node-save_node bolt k n' p.store saved, other) refl
        ])

  -- When a change fails in an engine, the store answers the old node for its id, and for all other ids what
  -- it answered before. All transactions commit.
  pub handle_update_node_rolled_back :
      (env : Env) (w : Windows) (opts : BuildOptions) (id : String) (in_ : NodeInput)
      (p : Panel bolt gost) (old : Node) (x : Failure)
      → node bolt gost id p ≡ some old
      → p.store.disk ≡ []
      → (handle_update_node bolt gost env w opts id (some in_) p).1 ≡ failed x
      → (k : String)
      → get_node bolt k (handle_update_node bolt gost env w opts id (some in_) p).0.store
        ≡ (if old.id == k then Store.ok old else get_node bolt k p.store)
  handle_update_node_rolled_back env w opts id in_ p old x found safe h k =
      let e = handle_update_node-found bolt gost env w opts id in_ p old found in
      rw e
        (update_built-failed env w opts old (build_node env in_ (some old)) p x safe (rw e at h) k)

  handle_delete_node-found :
      (w : Windows) (opts : BuildOptions) (id : String) (p : Panel bolt gost) (n : Node)
      → node bolt gost id p ≡ some n
      → handle_delete_node bolt gost w opts id p ≡ delete_found bolt gost w opts (some n) p
  unfolding handle_delete_node
  handle_delete_node-found w opts id p n found = rw found refl

  delete_found_lem :
      (w : Windows) (opts : BuildOptions) (p : Panel bolt gost) (n : Node)
      → is_reality n ≡ false
      → p.store.disk ≡ []
      → get_node bolt n.id p.store ≡ Store.ok n
      → (remove_node bolt gost w opts n p).1 ≡ none
      → let r = delete_found bolt gost w opts (some n) p in
        (r.1 ≡ done)
        × ((k : String)
            → get_node bolt k r.0.store
              ≡ (if n.id == k then Store.err not_found else get_node bolt k p.store))
        × ((k name : String)
            → gost.view r.0.gost_state k name
              ≡ (if lists k name (resources_of n) then none else gost.view p.gost_state k name))
        × ((ns : List Node) × (list_nodes bolt p.store ≡ Store.ok ns)
            × Mem n ns
            × (r.0.file ≡ some (build_config w opts ns)))
  unfolding delete_found
  delete_found_lem w opts p n other safe held removed =
      let p' = (remove_node bolt gost w opts n p).0 in
      let kept = (remove_node-Keeps bolt gost w opts n p).store in
      let (gone, _) = delete_node-commits bolt n.id p'.store (ap (λ s. s.disk) kept ∙ safe) in
      let p'' = record p' { store = (delete_node bolt n.id p'.store).0 } in
      let (state, file) = load_nodes-gost bolt gost p'' in
      let (views, synced) = remove_node_lem bolt gost w opts n p other removed in
      rw gone (
        refl,
        λ k. rw (load_nodes-store bolt gost p'') (
            get_node-delete_node bolt k n.id p'.store gone
            ∙ ap (λ s. if n.id == k then Store.err not_found else get_node bolt k s) kept),
        λ k name. rw state (views k name),
        (
          synced.stored,
          synced.listed,
          get_node-list_nodes bolt n.id n p.store synced.stored held synced.listed,
          file ∙ synced.written,
        ),
      )

  -- A stored node that gost carries is deleted: the store does not have it any more, and answers for all other
  -- ids what it answered; gost has none of its resources; but gost's configuration file is still that of the
  -- nodes that were stored before, the deleted one among them. All transactions commit, and gost reports no
  -- error.
  pub handle_delete_node_lem :
      (w : Windows) (opts : BuildOptions) (id : String) (p : Panel bolt gost) (n : Node)
      → node bolt gost id p ≡ some n
      → is_reality n ≡ false
      → p.store.disk ≡ []
      → get_node bolt n.id p.store ≡ Store.ok n
      → (remove_node bolt gost w opts n p).1 ≡ none
      → let r = handle_delete_node bolt gost w opts id p in
        (r.1 ≡ done)
        × ((k : String)
            → get_node bolt k r.0.store
              ≡ (if n.id == k then Store.err not_found else get_node bolt k p.store))
        × ((k name : String)
            → gost.view r.0.gost_state k name
              ≡ (if lists k name (resources_of n) then none else gost.view p.gost_state k name))
        × ((ns : List Node) × (list_nodes bolt p.store ≡ Store.ok ns)
            × Mem n ns
            × (r.0.file ≡ some (build_config w opts ns)))
  handle_delete_node_lem w opts id p n found other safe held removed =
      rw (handle_delete_node-found w opts id p n found)
        (delete_found_lem w opts p n other safe held removed)
