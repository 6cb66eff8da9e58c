-- ===== src/Store/Nodes.antt =====
-- The order that `sortNodes` gives.
use gost_webui.Prelude.{
  ℕ, ◌≤◌, ◌≡◌, refl, sym, true, ◌∙◌, ap, Bool, List, [], ◌∷◌, ◌++◌, arith, ltb, ◌==◌, nat_eq,
  beq_refl, keep_if, All, Bool-cases, inl, inr,
}
use mathlib.Core.Path.{subst}
use mathlib.Core.Logic.Or
use mathlib.Core.List.{
  append-nil, Mem, Mem-prop, mem-cons, mem-cons_self, mem-cons_of_mem, not-mem-nil,
}
use gost_webui.Model.{Node}
use gost_webui.Store.{sink, sink_all, last_first, sort_nodes}

abbrev Latest : List Node → Type 0
Latest [] = Unit
Latest (n ∷ ns) = All (λ m. m.created_at ≤ n.created_at) ns × Latest ns

abbrev pub IsByCreation : List Node → Type 0
IsByCreation [] = Unit
IsByCreation (n ∷ ns) = All (λ m. n.created_at ≤ m.created_at) ns × IsByCreation ns

module _ (P : Node → Type 0) where
  All-sink : (n : Node) (ns : List Node) → P n → All P ns → All P (sink n ns)
  unfolding sink
  All-sink n [] h hs = (h, tt)
  All-sink n (m ∷ ms) h hs = ground (arith, All-sink n ms h hs.1)

older :
    (n m : Node) (ms : List Node)
    → m.created_at ≤ n.created_at
    → All (λ k. k.created_at ≤ m.created_at) ms
    → All (λ k. k.created_at ≤ n.created_at) ms
older n m [] h hs = tt
older n m (k ∷ ms) h hs = (omega (arith, hs.0), older n m ms h hs.1)

sink-Latest : (n : Node) (ns : List Node) → Latest ns → Latest (sink n ns)
unfolding sink
sink-Latest n [] h = (tt, tt)
sink-Latest n (m ∷ ms) h = elim (Bool-cases (ltb n.created_at m.created_at)) [
  | inl below ↦
      rw below
        (All-sink (λ k. k.created_at ≤ m.created_at) n ms (ground arith) h.0, sink-Latest n ms h.1)
  | inr above ↦
      let le : m.created_at ≤ n.created_at = ground arith in rw above ((le, older n m ms le h.0), h)
]

sink_all-Latest : (sorted ns : List Node) → Latest sorted → Latest (sink_all sorted ns)
unfolding sink_all
sink_all-Latest sorted [] h = h
sink_all-Latest sorted (n ∷ ns) h = sink_all-Latest (sink n sorted) ns (sink-Latest n sorted h)

abbrev Below : List Node → List Node → Type 0
Below ns ms = All (λ n. All (λ m. n.created_at ≤ m.created_at) ms) ns

Below-cons :
    (n : Node) (ns out : List Node)
    → All (λ m. m.created_at ≤ n.created_at) ns
    → Below ns out
    → Below ns (n ∷ out)
Below-cons n [] out h b = tt
Below-cons n (k ∷ ns) out h b = ((h.0, b.0), Below-cons n ns out h.1 b.1)

last_first-IsByCreation :
    (ns out : List Node)
    → Latest ns
    → IsByCreation out
    → Below ns out
    → IsByCreation (last_first ns out)
last_first-IsByCreation [] out l s b = s
last_first-IsByCreation (n ∷ ns) out l s b =
    last_first-IsByCreation ns (n ∷ out) l.1 (b.0, s) (Below-cons n ns out l.0 b.1)

Below-nil : (ns : List Node) → Below ns []
Below-nil [] = tt
Below-nil (n ∷ ns) = (tt, Below-nil ns)

last_first-last_first :
    (xs ys zs : List Node) → last_first (last_first xs ys) zs ≡ last_first ys (xs ++ zs)
last_first-last_first [] ys zs = refl
last_first-last_first (x ∷ xs) ys zs = last_first-last_first xs (x ∷ ys) zs

abbrev at : ℕ → Node → Bool
at t n = n.created_at == t

module _ (t : ℕ) where
  keep-last_first :
      (xs out : List Node)
      → keep_if (at t) (last_first xs out) ≡ last_first (keep_if (at t) xs) (keep_if (at t) out)
  unfolding keep_if
  keep-last_first [] out = refl
  keep-last_first (x ∷ xs) out = ground (arith, keep-last_first xs (x ∷ out))

  keep-sink : (n : Node) (ns : List Node) → keep_if (at t) (sink n ns) ≡ keep_if (at t) (n ∷ ns)
  unfolding keep_if sink
  keep-sink n [] = refl
  keep-sink n (m ∷ ms) = ground (arith, keep-sink n ms)

  keep-cons :
      (n : Node) (ns sorted : List Node)
      → last_first (keep_if (at t) ns) (keep_if (at t) (n ∷ sorted))
        ≡ last_first (keep_if (at t) (n ∷ ns)) (keep_if (at t) sorted)
  unfolding keep_if
  keep-cons n ns sorted = ground arith

  keep-sink_all :
      (sorted ns : List Node)
      → keep_if (at t) (sink_all sorted ns) ≡ last_first (keep_if (at t) ns) (keep_if (at t) sorted)
  unfolding sink_all
  keep-sink_all sorted [] = unfold keep_if in refl
  keep-sink_all sorted (n ∷ ns) =
      keep-sink_all (sink n sorted) ns
      ∙ ap (last_first (keep_if (at t) ns)) (keep-sink n sorted)
      ∙ keep-cons n ns sorted

-- The nodes come back in the order of their creation, and for every time those that were created
-- then are the same ones in the same order: nothing is lost, doubled or reordered.
pub sort_nodes_lem :
    (ns : List Node)
    → IsByCreation (sort_nodes ns) × ((t : ℕ) → keep_if (at t) (sort_nodes ns) ≡ keep_if (at t) ns)
unfolding sort_nodes
sort_nodes_lem ns = (
  last_first-IsByCreation (sink_all [] ns) [] (sink_all-Latest [] ns tt) tt
      (Below-nil (sink_all [] ns)),
  λ t.
      keep-last_first t (sink_all [] ns) []
      ∙ ap (λ xs. last_first xs (keep_if (at t) [])) (keep-sink_all t [] ns)
      ∙ (unfold keep_if in (last_first-last_first (keep_if (at t) ns) [] [] ∙ append-nil _)),
)

mem-keep_if :
    (p : Node → Bool) (n : Node) (ns : List Node) → p n ≡ true → Mem n ns → Mem n (keep_if p ns)
unfolding keep_if
mem-keep_if p n [] h m = absurd (not-mem-nil m)
mem-keep_if p n (k ∷ ns) h m = elim (Bool-cases (p k)) [
  | inl kept ↦ rw kept (
      Or.elim Mem-prop (mem-cons.0 m) (λ e. subst (λ j. Mem n (j ∷ keep_if p ns)) e mem-cons_self)
        (λ later. mem-cons_of_mem k (mem-keep_if p n ns h later)))
  | inr dropped ↦ rw dropped (
      Or.elim Mem-prop (mem-cons.0 m) (λ (e : n ≡ k). absurd (cc (rw e at h)))
        (mem-keep_if p n ns h))
]

mem_of_keep_if : (p : Node → Bool) (n : Node) (ns : List Node) → Mem n (keep_if p ns) → Mem n ns
unfolding keep_if
mem_of_keep_if p n [] m = m
mem_of_keep_if p n (k ∷ ns) m = elim (Bool-cases (p k)) [
  | inl kept ↦
      Or.elim Mem-prop (mem-cons.0 (rw kept at m))
        (λ e. subst (λ j. Mem n (j ∷ ns)) e mem-cons_self)
        (λ later. mem-cons_of_mem k (mem_of_keep_if p n ns later))
  | inr dropped ↦ mem-cons_of_mem k (mem_of_keep_if p n ns (rw dropped at m))
]

-- Sorting loses no node.
pub mem-sort_nodes : (n : Node) (ns : List Node) → Mem n ns → Mem n (sort_nodes ns)
mem-sort_nodes n ns m =
    let t = n.created_at in
    mem_of_keep_if (at t) n (sort_nodes ns)
      (subst (Mem n) (sym ((sort_nodes_lem ns).1 t)) (mem-keep_if (at t) n ns (beq_refl t) m))
