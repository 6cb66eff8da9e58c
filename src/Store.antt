-- ===== src/Store.antt =====
-- internal/store/store.go: the panel's settings, nodes, hourly traffic, sessions and trusted devices
-- in one bbolt database. Times are Unix seconds; a text that is a key stands for its bytes. A value
-- that the program keeps as JSON is `json a`, or `unreadable` where it does not decode.
-- A read-write transaction commits as a whole or fails and leaves the database as it was: `disk`
-- holds the outcomes that the disk will give, one for each transaction to come, and every one after
-- those commits.
pub mod Bytes
pub mod Hours
pub mod Logins
pub mod Nodes
pub mod Commits
pub mod Gets
mod Tests
use gost_webui.Prelude.{
  ℕ, ◌+◌, ◌-◌, ◌%◌, ◌<◌, String, Bool, true, false, not, ◌&&◌, ◌||◌, Option, none, some, List, [],
  ◌∷◌, ltb, leb, ◌==◌, nat_eq, string_eq, ◌≡◌, refl, if◌then◌else◌, length, take, drop, keep_if,
  map, ◌++◌,
}
use gost_webui.Prelude.Maps.{Map, lookup}
use gost_webui.Model.{Node, Point}
use gost_webui.Bolt.{Bolt}
use gost_webui.Store.Bytes.{ByteString, bytes_eq, u64_mod, put_uint64, uint64, lt_bytes}

pub data Blob (A : Type 0) : Type 0 where
  json : A → Blob A
  unreadable : Blob A

pub record Session : Type 0 where
  pub user : String
  pub expires_at : ℕ
  pub ua : String

pub record Device : Type 0 where
  pub user : String
  pub ua : String
  pub created_at : ℕ
  pub expires_at : ℕ

-- Errors: `ErrNotFound`, a value that does not decode, a transaction that fails.
pub data StoreError : Type 0 where
  not_found bad_json disk_error : StoreError

pub data Result {ℓ} (A : Type ℓ) : Type ℓ where
  ok : A → Result A
  err : StoreError → Result A

-- `sortNodes`: the inner loop moves a node down past those that were created later.
sink : Node → List Node → List Node
sink n [] = n ∷ []
sink n (m ∷ ms) = if ltb n.created_at m.created_at then m ∷ sink n ms else n ∷ m ∷ ms

-- The sorted part, its last node first.
sink_all : List Node → List Node → List Node
sink_all sorted [] = sorted
sink_all sorted (n ∷ ns) = sink_all (sink n sorted) ns

abbrev last_first : List Node → List Node → List Node
last_first [] out = out
last_first (n ∷ ns) out = last_first ns (n ∷ out)

unfoldable pub sort_nodes : List Node → List Node
unfolding sink sink_all
sort_nodes ns = last_first (sink_all [] ns) []

module _ (bolt : Bolt) where
  open bolt use {
    Bucket, empty, get, put, delete, entries, Hours, no_hours, hour_put, hour_delete, hours,
  }

  pub record Db : Type 0 where
    pub meta : Bucket String
    pub nodes : Bucket (Blob Node)
    pub traffic : Bucket Hours
    pub sessions : Bucket (Blob Session)
    pub devices : Bucket (Blob Device)

  pub record Store : Type 0 where
    pub db : Db
    pub disk : List Bool

  -- `Open` on a path where no database is.
  abbrev pub open_new : List Bool → Store
  open_new disk = record {
    db = record { meta = empty; nodes = empty; traffic = empty; sessions = empty; devices = empty };
    disk = disk;
  }

  -- `db.Update`: the new state, and whether the transaction committed.
  abbrev pub commit : List Bool → Store → Db → Store × Bool
  commit [] s new = (record { db = new; disk = [] }, true)
  commit (true ∷ rest) s new = (record { db = new; disk = rest }, true)
  commit (false ∷ rest) s new = (record { db = s.db; disk = rest }, false)

  abbrev pub update : Store → Db → Store × Bool
  update s new = commit s.disk s new

  -- Settings.
  unfoldable pub get_setting : String → Store → Option String
  get_setting key s = get s.db.meta key

  unfoldable pub set_setting : String → String → Store → Store × Bool
  set_setting key value s = update s (record s.db { meta = put s.db.meta key value })

  unfoldable pub del_setting : String → Store → Store × Bool
  del_setting key s = update s (record s.db { meta = delete s.db.meta key })

  -- Nodes.
  decode_all : Map String (Blob Node) → Result (List Node)
  decode_all [] = ok []
  decode_all ((k, unreadable) ∷ m) = err bad_json
  decode_all ((k, json n) ∷ m) = elim (decode_all m) [ ok ns ↦ ok (n ∷ ns) | err e ↦ err e ]

  unfoldable pub list_nodes : Store → Result (List Node)
  unfolding decode_all
  list_nodes s = elim (decode_all (entries s.db.nodes)) [
    | ok ns ↦ ok (sort_nodes ns)
    | err e ↦ err e
  ]

  abbrev decode : {A : Type 0} → Option (Blob A) → Result A
  decode none = err not_found
  decode (some unreadable) = err bad_json
  decode (some (json a)) = ok a

  unfoldable pub get_node : String → Store → Result Node
  get_node id s = decode (get s.db.nodes id)

  unfoldable pub save_node : Node → Store → Store × Bool
  save_node n s = update s (record s.db { nodes = put s.db.nodes n.id (json n) })

  unfoldable pub delete_node : String → Store → Store × Bool
  delete_node id s = update s (record s.db {
    nodes = delete s.db.nodes id;
    traffic = elim (get s.db.traffic id) [ none ↦ s.db.traffic | some _ ↦ delete s.db.traffic id ];
  })

  pub commit_done :
      (disk : List Bool) (s : Store) (new : Db)
      → (commit disk s new).1 ≡ true
      → (commit disk s new).0.db ≡ new
  commit_done [] s new h = refl
  commit_done (true ∷ rest) s new h = refl
  commit_done (false ∷ rest) s new h = cc

  pub commit_failed :
      (disk : List Bool) (s : Store) (new : Db)
      → (commit disk s new).1 ≡ false
      → (commit disk s new).0.db ≡ s.db
  commit_failed [] s new h = cc
  commit_failed (true ∷ rest) s new h = cc
  commit_failed (false ∷ rest) s new h = refl

  -- What holds of the database before a transaction and of what it writes, holds after it.
  pub commit_keeps :
      (P : Db → Type 0) (disk : List Bool) (s : Store) (new : Db)
      → P s.db
      → P new
      → P (commit disk s new).0.db
  commit_keeps P [] s new h k = k
  commit_keeps P (true ∷ rest) s new h k = k
  commit_keeps P (false ∷ rest) s new h k = h
