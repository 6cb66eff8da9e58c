-- ===== src/Store/Gets.antt =====
-- A node after it was saved or deleted, and among the nodes that are listed.
use gost_webui.Prelude.{
  String, ◌≡◌, ◌⊎◌, refl, sym, ◌∙◌, Option, some, none, List, ◌∷◌, true, [], ◌==◌, string_eq,
  Bool-cases, inl, inr, if◌then◌else◌,
}
use mathlib.Core.Path.{subst}
use mathlib.Core.List.{Mem, mem-cons_self, mem-cons_of_mem}
use gost_webui.Prelude.Maps.{Map, lookup}
use gost_webui.Model.{Node}
use gost_webui.Bolt.{Bolt}
use gost_webui.Store.{
  Store, StoreError, Blob, json, unreadable, Result, ok, err, not_found, get_node, save_node,
  delete_node, commit_done, decode, decode_all, list_nodes, sort_nodes,
}
use gost_webui.Store.Nodes.{mem-sort_nodes}

Result-cases :
    {A : Type 0} (r : Result A) → ((a : A) × (r ≡ ok a)) ⊎ ((e : StoreError) × (r ≡ err e))
Result-cases (ok a) = inl (a, refl)
Result-cases (err e) = inr (e, refl)

module _ (bolt : Bolt) where
  open bolt use {get-put, get-delete, get-entries, get, entries}

  pub get_node-save_node :
      (k : String) (n : Node) (s : Store bolt)
      → (save_node bolt n s).1 ≡ true
      → get_node bolt k (save_node bolt n s).0 ≡ (if n.id == k then ok n else get_node bolt k s)
  unfolding get_node save_node
  get_node-save_node k n s done =
      rw (commit_done bolt s.disk s _ done, get-put)
        (elim (Bool-cases (n.id == k)) [ inl same ↦ rw same refl | inr other ↦ rw other refl ])

  pub get_node-delete_node :
      (k id : String) (s : Store bolt)
      → (delete_node bolt id s).1 ≡ true
      → get_node bolt k (delete_node bolt id s).0
        ≡ (if id == k then err not_found else get_node bolt k s)
  unfolding get_node delete_node
  get_node-delete_node k id s done =
      rw (commit_done bolt s.disk s _ done, get-delete)
        (elim (Bool-cases (id == k)) [ inl same ↦ rw same refl | inr other ↦ rw other refl ])

  -- Where no failure is to come, transactions commit, and none is to come after them.
  pub save_node-commits :
      (n : Node) (s : Store bolt)
      → s.disk ≡ []
      → ((save_node bolt n s).1 ≡ true) × ((save_node bolt n s).0.disk ≡ [])
  unfolding save_node
  save_node-commits n s safe = rw safe (refl, refl)

  pub delete_node-commits :
      (id : String) (s : Store bolt)
      → s.disk ≡ []
      → ((delete_node bolt id s).1 ≡ true) × ((delete_node bolt id s).0.disk ≡ [])
  unfolding delete_node
  delete_node-commits id s safe = rw safe (refl, refl)

  ok_inj : (a b : List Node) → ok a ≡ ok b → a ≡ b
  ok_inj a b e = cc

  decode_all-mem :
      (k : String) (n : Node) (m : Map String (Blob Node)) (ns : List Node)
      → lookup k m ≡ some (json n)
      → decode_all bolt m ≡ ok ns
      → Mem n ns
  unfolding decode_all lookup
  decode_all-mem k n [] ns found q = cc
  decode_all-mem k n ((j, unreadable) ∷ m) ns found q = cc
  decode_all-mem k n ((j, json a) ∷ m) ns found q = elim (Result-cases (decode_all bolt m)) [
    | inl (rest, e) ↦
        let whole : a ∷ rest ≡ ns = ok_inj (a ∷ rest) ns (rw e at q) in
        subst (Mem n) whole (elim (Bool-cases (j == k)) [
          | inl same ↦
              let first : n ≡ a = cc (rw same at found) in
              subst (λ x. Mem n (x ∷ rest)) first mem-cons_self
          | inr other ↦ mem-cons_of_mem a (decode_all-mem k n m rest (rw other at found) e)
        ])
    | inr (x, e) ↦ cc (rw e at q)
  ]

  decode-ok : (o : Option (Blob Node)) (n : Node) → decode bolt o ≡ ok n → o ≡ some (json n)
  decode-ok none n q = cc
  decode-ok (some unreadable) n q = cc
  decode-ok (some (json a)) n q = cc

  -- A node that the store answers for an id is among those that it lists.
  pub get_node-list_nodes :
      (id : String) (n : Node) (s : Store bolt) (ns : List Node)
      → get_node bolt id s ≡ ok n
      → list_nodes bolt s ≡ ok ns
      → Mem n ns
  unfolding get_node list_nodes
  get_node-list_nodes id n s ns found listed =
      elim (Result-cases (decode_all bolt (entries s.db.nodes))) [
        | inl (all, e) ↦
            let held = sym (get-entries s.db.nodes id) ∙ decode-ok (get s.db.nodes id) n found in
            let sorted : sort_nodes all ≡ ns =
              ok_inj (sort_nodes all) ns (rw (list_nodes, e) at listed) in
            subst (Mem n) sorted
              (mem-sort_nodes n all (decode_all-mem id n (entries s.db.nodes) all held e))
        | inr (x, e) ↦ cc (rw (list_nodes, e) at listed)
      ]
