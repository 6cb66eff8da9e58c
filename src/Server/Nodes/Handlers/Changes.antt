-- ===== src/Server/Nodes/Handlers/Changes.antt =====
-- What a change of a node leaves in the engines, and what the next sample makes of it.
use gost_webui.Prelude.{
  ℕ, ◌<◌, ◌≡◌, ◌≢◌, refl, sym, ap, ◌∙◌, String, true, Option, none, some, string_eq, Bool-cases,
  Option-cases, inl, inr, arith,
}
use gost_webui.Prelude.Int.{ℤ, pos, negsuc, positive}
use gost_webui.Model.{Node, is_reality}
use gost_webui.Bolt.{Bolt}
use gost_webui.Store.{save_node}
use gost_webui.Store.Bytes.{u64_mod}
use gost_webui.Gostmgr.Schema.{BuildOptions, Windows}
use gost_webui.Gostmgr.Client.{Gost}
use gost_webui.Controller.Engine.{Failure, Panel, node, load_nodes, apply_node}
use gost_webui.Controller.Engine.Keeps.{apply_node-OnlyPool, load_nodes-gost}
use gost_webui.Controller.Sampler.{Sampler, add64}
use gost_webui.Controller.Sampler.Reality.{Clock, EngineStats, sample_reality_node}
use gost_webui.Controller.Sampler.Reality.Engines.{sample_reality_node_new_process}
use gost_webui.Server.Nodes
use gost_webui.Server.Nodes.{NodeInput, Env, Checked}
use gost_webui.Server.Nodes.Build.{build_node}
use gost_webui.Server.Nodes.Ports.{DrawsFit}
use gost_webui.Server.Nodes.Common.Numbers.{OldFits}
use gost_webui.Server.Nodes.Build.Fits.{build_node_lem}
use gost_webui.Server.Nodes.Handlers.{
  missing, shown, unsaved, Handled, handle_update_node, update_found, update_built, apply_updated,
  settle_updated,
}

unsaved-ne-shown : (n : Node) → ¬ (unsaved ≡ shown n)
unsaved-ne-shown n q = cc

missing-ne-shown : (n : Node) → ¬ (missing ≡ shown n)
missing-ne-shown n q = cc

zero-ne-sentinel : pos 0 ≢ negsuc 0
zero-ne-sentinel q = cc

zero-ne-positive : (z : ℤ) → positive z ≡ true → pos 0 ≢ z
zero-ne-positive (pos n) h q = ground (arith, h, q)
zero-ne-positive (negsuc n) h q = cc

some_injective : {a b : Node} → some a ≡ some b → a ≡ b
some_injective q = cc

-- The node that is saved.
abbrev pub updated : Env → Node → Node → Node
updated env old n = record n {
  id = old.id;
  created_at = old.created_at;
  updated_at = env.now;
  total_in = old.total_in;
  total_out = old.total_out;
}

module _ (bolt : Bolt) (gost : Gost) where
  -- The panel from which the engines are asked.
  abbrev saved_panel : Panel bolt gost → Node → Panel bolt gost
  saved_panel p n = (load_nodes bolt gost (record p { store = (save_node bolt n p.store).0 })).0

  -- A request that was answered with the changed node.
  pub record IsUpdated (env : Env) (w : Windows) (opts : BuildOptions) (old : Node)
      (m : Checked Node) (p : Panel bolt gost) (r : Handled bolt gost) (n' : Node) : Type 0 where
    pub n : Node
    pub built : m ≡ Nodes.ok n
    pub shape : n' ≡ updated env old n
    pub applied : (apply_node bolt gost w opts n' (saved_panel p n')).1 ≡ none
    pub result : r.0 ≡ (apply_node bolt gost w opts n' (saved_panel p n')).0

  settle_updated-shown :
      (w : Windows) (opts : BuildOptions) (old n n' : Node) (p : Panel bolt gost)
      (e : Option Failure)
      → (settle_updated bolt gost w opts old n p e).1 ≡ shown n'
      → (e ≡ none) × (n' ≡ n) × ((settle_updated bolt gost w opts old n p e).0 ≡ p)
  unfolding settle_updated
  settle_updated-shown w opts old n n' p none h = (refl, cc, refl)
  settle_updated-shown w opts old n n' p (some e) h = cc

  update_built-IsUpdated :
      (env : Env) (w : Windows) (opts : BuildOptions) (old : Node) (m : Checked Node)
      (p : Panel bolt gost) (n' : Node)
      → (update_built bolt gost env w opts old m p).1 ≡ shown n'
      → IsUpdated env w opts old m p (update_built bolt gost env w opts old m p) n'
  unfolding update_built apply_updated
  update_built-IsUpdated env w opts old (Nodes.bad e) p n' h = cc
  update_built-IsUpdated env w opts old (Nodes.ok n) p n' h =
      let m = updated env old n in
      let q = apply_node bolt gost w opts m (saved_panel p m) in
      elim (Bool-cases (save_node bolt m p.store).1) [
        | inr lost ↦ absurd (unsaved-ne-shown n' (rw lost at h))
        | inl saved ↦
            let (done, same, res) = settle_updated-shown w opts old m n' q.0 q.1 (rw saved at h) in
            rw saved (record {
              n = n;
              built = refl;
              shape = same;
              applied = rw same done;
              result = rw same res;
            })
      ]

  pub handle_update_node-found :
      (env : Env) (w : Windows) (opts : BuildOptions) (id : String) (in_ : NodeInput)
      (p : Panel bolt gost) (old : Node)
      → node bolt gost id p ≡ some old
      → handle_update_node bolt gost env w opts id (some in_) p
        ≡ update_built bolt gost env w opts old (build_node env in_ (some old)) p
  unfolding handle_update_node update_found
  handle_update_node-found env w opts id in_ p old found = rw found refl

  handle_update_node-none :
      (env : Env) (w : Windows) (opts : BuildOptions) (id : String) (in_ : NodeInput)
      (p : Panel bolt gost)
      → node bolt gost id p ≡ none
      → handle_update_node bolt gost env w opts id (some in_) p ≡ (p, missing, none)
  unfolding handle_update_node update_found
  handle_update_node-none env w opts id in_ p unknown = rw unknown refl

  pub handle_update_node-IsUpdated :
      (env : Env) (w : Windows) (opts : BuildOptions) (id : String) (in_ : NodeInput)
      (p : Panel bolt gost) (n' : Node)
      → (handle_update_node bolt gost env w opts id (some in_) p).1 ≡ shown n'
      → (old : Node) × (node bolt gost id p ≡ some old)
        × IsUpdated env w opts old
            (build_node env in_ (some old))
            p
            (handle_update_node bolt gost env w opts id (some in_) p)
            n'
  handle_update_node-IsUpdated env w opts id in_ p n' h =
      elim (Option-cases (node bolt gost id p)) [
        | inl unknown ↦
            absurd
              (missing-ne-shown n' (rw (handle_update_node-none env w opts id in_ p unknown) at h))
        | inr (old, found) ↦
            let e = handle_update_node-found env w opts id in_ p old found in
            (
              old,
              found,
              rw e (
                  update_built-IsUpdated env w opts old (build_node env in_ (some old)) p n'
                    (rw e at h)),
            )
      ]

  -- A change that is answered with a node that sing-box carries asks gost for nothing and leaves its
  -- configuration file alone, whatever carried the node before.
  pub handle_update_node_to_reality :
      (env : Env) (w : Windows) (opts : BuildOptions) (id : String) (in_ : NodeInput)
      (p : Panel bolt gost) (n' : Node)
      → (handle_update_node bolt gost env w opts id (some in_) p).1 ≡ shown n'
      → is_reality n' ≡ true
      → let p' = (handle_update_node bolt gost env w opts id (some in_) p).0 in
        (p'.gost_state ≡ p.gost_state) × (p'.file ≡ p.file)
  handle_update_node_to_reality env w opts id in_ p n' h sing =
      let (old, found, u) = handle_update_node-IsUpdated env w opts id in_ p n' h in
      let only = apply_node-OnlyPool bolt gost w opts n' (saved_panel p n') sing in
      let (state, file) =
        load_nodes-gost bolt gost (record p { store = (save_node bolt n' p.store).0 }) in
      rw u.result (only.gost_state ∙ state, only.file ∙ file)

  -- A change of a REALITY node whose process runs on: the next sample of that process adds all that the
  -- process has counted to totals that already hold what was counted at the last sample. The old node's
  -- counters are those of this process, its port is a port number, and random numbers lie below their
  -- bound.
  pub handle_update_node_counts_again :
      (env : Env) (w : Windows) (opts : BuildOptions) (id : String) (in_ : NodeInput)
      (p : Panel bolt gost) (old n' : Node)
      → DrawsFit env.draws
      → node bolt gost id p ≡ some old
      → OldFits (some old)
      → (handle_update_node bolt gost env w opts id (some in_) p).1 ≡ shown n'
      → (clock : Clock) (hour : ℕ) (st : EngineStats) (s : Sampler bolt) → positive st.pid ≡ true
      → old.counter_pid ≡ st.pid
      → old.total_in < u64_mod
      → old.total_out < u64_mod
      → let m = (sample_reality_node bolt clock hour st n' s).0 in
        (m.total_in ≡ add64 old.total_in st.up) × (m.total_out ≡ add64 old.total_out st.down)
  handle_update_node_counts_again env w opts id in_ p old n' fit found fits h clock hour st s runs
        same small small' =
      let (o, found', u) = handle_update_node-IsUpdated env w opts id in_ p n' h in
      let e : o ≡ old = some_injective (sym found' ∙ found) in
      let fits' : OldFits (some o) = rw e fits in
      let a = build_node_lem env in_ (some o) u.n fit fits' u.built in
      let pid : n'.counter_pid ≡ pos 0 = ap (λ m. m.counter_pid) u.shape ∙ a.counter_pid in
      let t_in : n'.total_in ≡ old.total_in =
        ap (λ m. m.total_in) u.shape ∙ ap (λ m. m.total_in) e in
      let t_out : n'.total_out ≡ old.total_out =
        ap (λ m. m.total_out) u.shape ∙ ap (λ m. m.total_out) e in
      let (got_in, got_out) =
        sample_reality_node_new_process bolt clock hour st n' s (rw pid zero-ne-sentinel) runs
          (rw pid (zero-ne-positive st.pid runs)) (rw t_in small) (rw t_out small') in
      (got_in ∙ ap (λ t. add64 t st.up) t_in, got_out ∙ ap (λ t. add64 t st.down) t_out)
