-- ===== src/Bolt.antt =====
-- go.etcd.io/bbolt, as internal/store uses it: buckets of values under keys, and the buckets of one
-- node's hours, whose keys and values are byte strings that a cursor visits in order. The package is
-- not part of the repository, so both are a parameter, with the laws of its documentation. A text
-- that is a key stands for its bytes.
pub mod Lists
use gost_webui.Prelude.{
  String, ◌≡◌, true, Option, none, some, List, [], ◌∷◌, ◌==◌, string_eq, if◌then◌else◌, All,
}
use gost_webui.Prelude.Maps.{Map, lookup, HasDistinctKeys}
use gost_webui.Store.Bytes.{ByteString, bytes_eq, lt_bytes}

-- The order of a cursor: every key is below all that come after it.
abbrev pub IsAscending : Map ByteString ByteString → Type 0
IsAscending [] = Unit
IsAscending ((k, v) ∷ m) = All (λ kv. lt_bytes k kv.0 ≡ true) m × IsAscending m

pub record Bolt : Type 1 where
  pub Bucket : Type 0 → Type 0
  pub empty : {V : Type 0} → Bucket V
  pub get : {V : Type 0} → Bucket V → String → Option V
  pub put : {V : Type 0} → Bucket V → String → V → Bucket V
  pub delete : {V : Type 0} → Bucket V → String → Bucket V
  -- `ForEach` and a cursor's `First` and `Next`
  pub entries : {V : Type 0} → Bucket V → Map String V
  pub get-empty : {V : Type 0} (k : String) → get (empty {V = V}) k ≡ none
  pub get-put :
      {V : Type 0} (b : Bucket V) (k j : String) (v : V)
      → get (put b k v) j ≡ (if k == j then some v else get b j)
  pub get-delete :
      {V : Type 0} (b : Bucket V) (k j : String)
      → get (delete b k) j ≡ (if k == j then none else get b j)
  pub get-entries : {V : Type 0} (b : Bucket V) (k : String) → get b k ≡ lookup k (entries b)
  pub entries_distinct : {V : Type 0} (b : Bucket V) → HasDistinctKeys (entries b)
  pub Hours : Type 0
  pub no_hours : Hours
  pub hour_put : Hours → ByteString → ByteString → Hours
  pub hour_delete : Hours → ByteString → Hours
  pub hours : Hours → Map ByteString ByteString
  pub hours-no_hours : hours no_hours ≡ []
  pub lookup-hour_put :
      (b : Hours) (k j v : ByteString)
      → lookup j (hours (hour_put b k v)) ≡ (if k == j then some v else lookup j (hours b))
  pub lookup-hour_delete :
      (b : Hours) (k j : ByteString)
      → lookup j (hours (hour_delete b k)) ≡ (if k == j then none else lookup j (hours b))
  pub hours_ascend : (b : Hours) → IsAscending (hours b)
