-- ===== src/Server/Nodes/Common/Numbers.antt =====
-- The port that a node is given.
use gost_webui.Prelude.{
  ℕ, ◌<◌, ◌≡◌, refl, inl, inr, true, Option, none, some, Option-cases, arith, string_eq, nat_eq,
}
use gost_webui.Prelude.Int.{ℤ, pos, negsuc, positive, int_eq}
use gost_webui.Model.{Node}
use gost_webui.Server.Nodes.{Env, Gives, Gives-if, pick_free_port}
use gost_webui.Server.Nodes.Ports.{DrawsFit, pick_free_port_lem}
use gost_webui.Server.Nodes.Common.{chosen_port, is_port, free_port, old_port}

-- A port number.
abbrev pub IsPort : ℤ → Type 0
IsPort z = (p : ℕ) × (z ≡ pos p) × (0 < p) × (p < 65536)

-- The port that the node has so far, if it has one.
abbrev pub OldFits : Option Node → Type 0
OldFits none = Unit {0}
OldFits (some old) = positive old.listen_port ≡ true → IsPort old.listen_port

pub is_port-IsPort : (z : ℤ) → is_port z ≡ true → IsPort z
unfolding is_port
is_port-IsPort (pos p) h = (p, refl, ground (arith, h), ground (arith, h))
is_port-IsPort (negsuc p) h = cc

free_port-IsPort : (env : Env) → DrawsFit env.draws → Gives (free_port env) IsPort
unfolding free_port
free_port-IsPort env fit = elim (Option-cases (pick_free_port env)) [
  | inl taken ↦ rw (taken, free_port) tt
  | inr (p, picked) ↦
      let (low, high, _, _) = (pick_free_port_lem env fit).0 p picked in
      rw (picked, free_port) (p, refl, omega arith, omega arith)
]

old_port-IsPort :
    (old : Option Node) → OldFits old → positive (old_port old) ≡ true → IsPort (old_port old)
unfolding old_port
old_port-IsPort none fits h = cc
old_port-IsPort (some old) fits h = fits h

pub chosen_port-IsPort :
    (env : Env) (asked : ℤ) (old : Option Node)
    → DrawsFit env.draws
    → OldFits old
    → Gives (chosen_port env asked old) IsPort
unfolding chosen_port
chosen_port-IsPort env asked old fit fits =
    Gives-if IsPort (positive asked) _ _
      (λ _. Gives-if IsPort (is_port asked) _ _ (λ h. is_port-IsPort asked h) (λ _. tt))
      (λ _.
        Gives-if IsPort (positive (old_port old)) _ _ (old_port-IsPort old fits)
          (λ _. free_port-IsPort env fit))
