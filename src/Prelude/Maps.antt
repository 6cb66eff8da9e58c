-- ===== src/Prelude/Maps.antt =====
-- Go maps as association lists, whose order stands for the order of iteration, which Go leaves open.
use Prim.Native.Nat.{suc, ◌≤◌}
use mathlib.Core.Path.{◌≡◌, refl, sym}
use mathlib.Core.Bool.{Bool}
use mathlib.Core.Logic.{◌≢◌, inl, inr}
use mathlib.Core.Option.{Option, none, some}
use mathlib.Core.List.{List, [], ◌∷◌}
use native.Mathlib.Omega.{arith}
use gost_webui.Prelude.Tests.{Eq, ◌==◌, beq_refl, Bool-cases, if◌then◌else◌}
use gost_webui.Prelude.Lists.{length, All, keep_if}

abbrev pub Map : Type 0 → Type 0 → Type 0
Map K V = List (K × V)

module _ {K V : Type 0} ⦃e : Eq K⦄ where
  unfoldable pub lookup : K → Map K V → Option V
  lookup k [] = none
  lookup k ((j, v) ∷ m) = if j == k then some v else lookup k m

  -- `m[k] = v`
  unfoldable pub insert : K → V → Map K V → Map K V
  insert k v [] = (k, v) ∷ []
  insert k v ((j, w) ∷ m) = if j == k then (k, v) ∷ m else (j, w) ∷ insert k v m

  -- `delete(m, k)`
  unfoldable pub delete : K → Map K V → Map K V
  delete k [] = []
  delete k ((j, w) ∷ m) = let rest = delete k m in if j == k then rest else (j, w) ∷ rest

  pub lookup-insert :
      (k j : K) (v : V) (m : Map K V)
      → lookup j (insert k v m) ≡ (if k == j then some v else lookup j m)
  unfolding lookup insert
  lookup-insert k j v [] = refl
  lookup-insert k j v ((first, old) ∷ m) =
      ground (arith, lookup-insert k j v m, e.test_iff k j, e.test_iff first k, e.test_iff first j)

  pub lookup-delete :
      (k j : K) (m : Map K V) → lookup j (delete k m) ≡ (if k == j then none else lookup j m)
  unfolding lookup delete
  lookup-delete k j [] = ground arith
  lookup-delete k j ((i, w) ∷ m) =
      ground (arith, e.test_iff k j, e.test_iff i k, e.test_iff i j, lookup-delete k j m)

  pub lookup-insert_self : (k : K) (v : V) (m : Map K V) → lookup k (insert k v m) ≡ some v
  lookup-insert_self k v m = simp (lookup-insert, beq_refl)

  pub lookup-delete_self : (k : K) (m : Map K V) → lookup k (delete k m) ≡ none
  lookup-delete_self k m = simp (lookup-delete, beq_refl)

  pub length-insert : (k : K) (v : V) (m : Map K V) → length (insert k v m) ≤ suc (length m)
  unfolding insert
  length-insert k v [] = omega arith
  length-insert k v ((j, w) ∷ m) = ground (arith, length-insert k v m)

pub ruleset map_laws =
    (lookup-insert, lookup-delete, lookup-insert_self, lookup-delete_self, beq_refl)

-- The keys of a map that a Go program can build are distinct.
module _ {K V : Type 0} where
  abbrev pub Fresh : K → Map K V → Type 0
  Fresh k m = All (λ kv. kv.0 ≢ k) m

  abbrev pub HasDistinctKeys : Map K V → Type 0
  HasDistinctKeys [] = Unit
  HasDistinctKeys ((k, v) ∷ m) = Fresh k m × HasDistinctKeys m

  module _ (P : K × V → Type 0) where
    pub All-keep_if : (p : K × V → Bool) (m : Map K V) → All P m → All P (keep_if p m)
    unfolding keep_if
    All-keep_if p [] h = tt
    All-keep_if p (kv ∷ m) h = ground (arith, All-keep_if p m h.1)

  abbrev pub filtered : (K × V → Bool) → K → Option V → Option V
  filtered p k none = none
  filtered p k (some v) = if p (k, v) then some v else none

  pub keep_if-HasDistinctKeys :
      (p : K × V → Bool) (m : Map K V) → HasDistinctKeys m → HasDistinctKeys (keep_if p m)
  unfolding keep_if
  keep_if-HasDistinctKeys p [] h = tt
  keep_if-HasDistinctKeys p ((k, v) ∷ m) h =
      ground (arith, keep_if-HasDistinctKeys p m h.1, All-keep_if (λ kv. kv.0 ≢ k) p m h.0)

module _ {K V : Type 0} ⦃e : Eq K⦄ (P : K × V → Type 0) where
  pub All-insert : (k : K) (v : V) (m : Map K V) → P (k, v) → All P m → All P (insert k v m)
  unfolding insert
  All-insert k v [] h hm = (h, tt)
  All-insert k v ((j, w) ∷ m) h hm = ground (arith, All-insert k v m h hm.1)

  pub All-delete : (k : K) (m : Map K V) → All P m → All P (delete k m)
  unfolding delete
  All-delete k [] h = tt
  All-delete k ((j, w) ∷ m) h = ground (arith, All-delete k m h.1)

  pub All-lookup : (k : K) (v : V) (m : Map K V) → All P m → lookup k m ≡ some v → P (k, v)
  unfolding lookup
  All-lookup k v [] h q = cc
  All-lookup k v ((j, w) ∷ m) h q = ground (arith, e.test_iff j k, All-lookup k v m h.1)

module _ {K V : Type 0} ⦃e : Eq K⦄ where
  pub Fresh-insert : (j k : K) (v : V) (m : Map K V) → k ≢ j → Fresh j m → Fresh j (insert k v m)
  Fresh-insert j k v m h hm = All-insert (λ kv. kv.0 ≢ j) k v m h hm

  pub insert-HasDistinctKeys :
      (k : K) (v : V) (m : Map K V) → HasDistinctKeys m → HasDistinctKeys (insert k v m)
  unfolding insert
  insert-HasDistinctKeys k v [] h = (tt, tt)
  insert-HasDistinctKeys k v ((j, w) ∷ m) h = elim (Bool-cases (j == k)) [
    | inl same ↦ rw same (rw (← (e.test_iff j k).0 same) h)
    | inr other ↦ rw other (
      Fresh-insert j k v m (λ q. cc ((e.test_iff j k).1 (sym q))) h.0,
      insert-HasDistinctKeys k v m h.1,
    )
  ]

  pub delete-HasDistinctKeys :
      (k : K) (m : Map K V) → HasDistinctKeys m → HasDistinctKeys (delete k m)
  unfolding delete
  delete-HasDistinctKeys k [] h = tt
  delete-HasDistinctKeys k ((j, w) ∷ m) h =
      ground (arith, delete-HasDistinctKeys k m h.1, All-delete (λ kv. kv.0 ≢ j) k m h.0)

  pub length-delete : (k : K) (m : Map K V) → length (delete k m) ≤ length m
  unfolding delete
  length-delete k [] = omega arith
  length-delete k ((j, w) ∷ m) = ground (arith, length-delete k m)

  pub length-delete_present :
      (k : K) (m : Map K V) → lookup k m ≢ none → suc (length (delete k m)) ≤ length m
  unfolding lookup delete
  length-delete_present k [] h = absurd (h refl)
  length-delete_present k ((j, w) ∷ m) h =
      ground (arith, length-delete k m, length-delete_present k m)

  pub lookup_of_Fresh : (k : K) (m : Map K V) → Fresh k m → lookup k m ≡ none
  unfolding lookup
  lookup_of_Fresh k [] h = refl
  lookup_of_Fresh k ((j, w) ∷ m) h = ground (arith, e.test_iff j k, lookup_of_Fresh k m h.1)

  -- A pass that keeps some entries, seen at one key.
  pub lookup-keep_if :
      (p : K × V → Bool) (k : K) (m : Map K V)
      → HasDistinctKeys m
      → lookup k (keep_if p m) ≡ filtered p k (lookup k m)
  unfolding lookup keep_if
  lookup-keep_if p k [] h = refl
  lookup-keep_if p k ((j, w) ∷ m) h = elim (Bool-cases (j == k)) [
    | inl same ↦
        let fresh = lookup_of_Fresh j (keep_if p m) (All-keep_if (λ kv. kv.0 ≢ j) p m h.0) in
        ground (arith, (e.test_iff j k).0 same, fresh)
    | inr other ↦ ground (arith, lookup-keep_if p k m h.1)
  ]
