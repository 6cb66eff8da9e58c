-- ===== src/Store/Hours/Pruning.antt =====
-- What `PruneTraffic` deletes.
use gost_webui.Prelude.{
  ℕ, ◌<◌, String, ◌≡◌, refl, sym, ◌∙◌, ap, Bool, true, false, ◌||◌, Option, none, some, List, [],
  ◌∷◌, arith, ltb, ◌==◌, nat_eq, string_eq, eq_iff, if◌then◌else◌, All, Bool-cases, Option-cases,
  inl, inr,
}
use gost_webui.Prelude.Maps.{Map, lookup, All-lookup, HasDistinctKeys, lookup_of_Fresh}
use gost_webui.Bolt.{Bolt}
use gost_webui.Store.{Store, Db, commit_done, commit_failed}
use gost_webui.Store.Bytes.{
  ByteString, bytes_eq, bytes_beq_iff, u64_mod, uint64, uint64-put_uint64, signed-pos,
}
use gost_webui.Store.Hours.{
  hour_key, counters, old_keys, delete_hours, prune_hours, prune_all, prune_traffic,
}
use gost_webui.Store.Hours.Scan.{IsHour, Later, IsAscending-Later}
use gost_webui.Store.Hours.Totals.{traffic_at}
use gost_webui.Store.Hours.Form.{IsHourly, AllHourly}

module _ (bolt : Bolt) where
  open bolt use {
    Bucket, Hours, hours, hour_put, hour_delete, get, get-put, get-entries, entries,
    entries_distinct, lookup-hour_put, lookup-hour_delete, hours-no_hours, hours_ascend,
  }

  contains : ByteString → List ByteString → Bool
  contains j [] = false
  contains j (k ∷ ks) = k == j || contains j ks

  lookup-delete_hours :
      (j : ByteString) (ks : List ByteString) (b : Hours)
      → lookup j (hours (delete_hours bolt ks b))
        ≡ (if contains j ks then none else lookup j (hours b))
  unfolding delete_hours contains
  lookup-delete_hours j [] b = refl
  lookup-delete_hours j (k ∷ ks) b =
      ground (arith, lookup-delete_hours j ks (hour_delete b k), lookup-hour_delete b k j)

  -- On a table in the order of time the collected keys are those of the hours before the limit.
  contains-old_keys :
      (before : ℕ) (m : Map ByteString ByteString) (j v : ByteString)
      → All IsHour m
      → Later m
      → lookup j m ≡ some v
      → contains j (old_keys before m) ≡ ltb (uint64 j) before
  unfolding contains old_keys lookup
  contains-old_keys before [] j v h l q = cc
  contains-old_keys before ((k, w) ∷ m) j v h l q = elim (Bool-cases (k == j)) [
    | inl same ↦
        ground
          (arith, (bytes_beq_iff k j).0 same, h.0.key_length, signed-pos (uint64 k) h.0.since_1970)
    | inr other ↦
        let found : lookup j m ≡ some v = rw other at q in
        ground (
          arith,
          h.0.key_length,
          signed-pos (uint64 k) h.0.since_1970,
          contains-old_keys before m j v h.1 l.1 found,
          All-lookup (λ kv. uint64 k < uint64 kv.0) j v m l.0 found,
        )
  ]

  counters-prune_hours :
      (before j : ℕ) (b : Hours)
      → j < u64_mod
      → IsHourly bolt b
      → counters (lookup (hour_key j) (hours (prune_hours bolt before b)))
        ≡ (if ltb j before then (0, 0) else counters (lookup (hour_key j) (hours b)))
  unfolding prune_hours counters
  counters-prune_hours before j b small hb =
      rw lookup-delete_hours (elim (Option-cases (lookup (hour_key j) (hours b))) [
        | inl missing ↦ rw missing (ground arith)
        | inr (v, found) ↦
            let kept =
              contains-old_keys before (hours b) (hour_key j) v hb
                (IsAscending-Later (hours b) hb (hours_ascend b)) found in
            rw (kept, found, uint64-put_uint64 j small) (ground arith)
      ])

  pruned : ℕ → Option Hours → Option Hours → Option Hours
  pruned before none old = old
  pruned before (some b) old = some (prune_hours bolt before b)

  get-prune_all :
      (before : ℕ) (m : Map String Hours) (root : Bucket Hours) (id : String)
      → HasDistinctKeys m
      → get (prune_all bolt before m root) id ≡ pruned before (lookup id m) (get root id)
  unfolding prune_all pruned lookup
  get-prune_all before [] root id d = refl
  get-prune_all before ((k, b) ∷ m) root id d = elim (Bool-cases (k == id)) [
    | inl same ↦
        let e : k ≡ id = (eq_iff k id).0 same in
        let gone : lookup id m ≡ none = lookup_of_Fresh id m (rw (← e) d.0) in
        ground (
          arith,
          get-prune_all before m (bolt.put root k (prune_hours bolt before b)) id d.1,
          gone,
          get-put root k id (prune_hours bolt before b),
          same,
        )
    | inr other ↦ ground (
      arith,
      get-prune_all before m (bolt.put root k (prune_hours bolt before b)) id d.1,
      get-put root k id (prune_hours bolt before b),
      other,
    )
  ]

  get-prune_traffic :
      (before : ℕ) (root : Bucket Hours) (id : String)
      → get (prune_all bolt before (entries root) root) id
        ≡ pruned before (get root id) (get root id)
  get-prune_traffic before root id =
      get-prune_all before (entries root) root id (entries_distinct root)
      ∙ ap (λ o. pruned before o (get root id)) (sym (get-entries root id))

  -- A clean-up that commits sets every node's hours before the limit to nothing and leaves all
  -- others; one that fails leaves the database as it was. Every hour has the form that `AddTraffic` writes
  -- for a time that is not before 1970.
  pub prune_traffic_lem :
      (before : ℕ) (s : Store bolt)
      → AllHourly bolt s.db
      → ((prune_traffic bolt before s).1 ≡ true
          → (id : String) (j : ℕ) → j < u64_mod
          → traffic_at bolt id j (prune_traffic bolt before s).0
            ≡ (if ltb j before then (0, 0) else traffic_at bolt id j s))
        × ((prune_traffic bolt before s).1 ≡ false → (prune_traffic bolt before s).0.db ≡ s.db)
  unfolding prune_traffic
  prune_traffic_lem before s all =
      let new : Db bolt = record s.db {
        traffic = prune_all bolt before (entries s.db.traffic) s.db.traffic;
      } in
      (
        λ done id j small.
            rw (commit_done bolt s.disk s new done, get-prune_traffic before s.db.traffic id)
              (elim (Option-cases (get s.db.traffic id)) [
                | inl missing ↦
                    rw missing (unfold pruned counters lookup in rw hours-no_hours (ground arith))
                | inr (b, found) ↦
                    rw found
                      (unfold pruned in counters-prune_hours before j b small (all id b found))
              ]),
        commit_failed bolt s.disk s new,
      )
