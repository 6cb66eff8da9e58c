-- ===== src/Bolt/Lists.antt =====
-- Buckets as sorted lists: an instance of the laws.
use gost_webui.Prelude.{
  String, ◌≡◌, refl, true, false, none, some, [], ◌∷◌, arith, ◌==◌, string_eq, if◌then◌else◌, All,
  Bool-cases, inl, inr,
}
use gost_webui.Prelude.Maps.{
  Map, lookup, insert, delete, HasDistinctKeys, lookup-insert, lookup-delete,
  insert-HasDistinctKeys, delete-HasDistinctKeys, All-delete,
}
use gost_webui.Store.Bytes.{ByteString, bytes_eq, bytes_beq, bytes_beq_iff, lt_bytes}
use gost_webui.Bolt.{Bolt, IsAscending}

lt_bytes_trans :
    (xs ys zs : ByteString) → lt_bytes xs ys ≡ true → lt_bytes ys zs ≡ true → lt_bytes xs zs ≡ true
unfolding lt_bytes
lt_bytes_trans [] [] zs h k = cc
lt_bytes_trans [] (y ∷ ys) [] h k = cc
lt_bytes_trans [] (y ∷ ys) (z ∷ zs) h k = refl
lt_bytes_trans (x ∷ xs) [] zs h k = cc
lt_bytes_trans (x ∷ xs) (y ∷ ys) [] h k = cc
lt_bytes_trans (x ∷ xs) (y ∷ ys) (z ∷ zs) h k = ground (arith, lt_bytes_trans xs ys zs)

lt_bytes_total :
    (xs ys : ByteString) → lt_bytes xs ys ≡ false → bytes_beq xs ys ≡ false → lt_bytes ys xs ≡ true
unfolding lt_bytes
lt_bytes_total [] [] h k = cc
lt_bytes_total [] (y ∷ ys) h k = cc
lt_bytes_total (x ∷ xs) [] h k = refl
lt_bytes_total (x ∷ xs) (y ∷ ys) h k = ground (arith, lt_bytes_total xs ys)

unfoldable pub insert_sorted :
    ByteString → ByteString → Map ByteString ByteString → Map ByteString ByteString
insert_sorted k v [] = (k, v) ∷ []
insert_sorted k v ((j, w) ∷ m) =
    let rest = insert_sorted k v m in
    if j == k then (k, v) ∷ m else if lt_bytes k j then (k, v) ∷ (j, w) ∷ m else (j, w) ∷ rest

pub lookup-insert_sorted :
    (k j v : ByteString) (m : Map ByteString ByteString)
    → lookup j (insert_sorted k v m) ≡ (if k == j then some v else lookup j m)
unfolding lookup insert_sorted
lookup-insert_sorted k j v [] = refl
lookup-insert_sorted k j v ((i, w) ∷ m) =
    ground
      (arith, bytes_beq_iff k j, bytes_beq_iff i k, bytes_beq_iff i j, lookup-insert_sorted k j v m)

module _ (P : ByteString × ByteString → Type 0) where
  All-insert_sorted :
      (k v : ByteString) (m : Map ByteString ByteString)
      → P (k, v)
      → All P m
      → All P (insert_sorted k v m)
  unfolding insert_sorted
  All-insert_sorted k v [] h hm = (h, tt)
  All-insert_sorted k v ((j, w) ∷ m) h hm = ground (arith, All-insert_sorted k v m h hm.1)

All-below :
    (k j : ByteString) (m : Map ByteString ByteString)
    → lt_bytes k j ≡ true
    → All (λ kv. lt_bytes j kv.0 ≡ true) m
    → All (λ kv. lt_bytes k kv.0 ≡ true) m
All-below k j [] h hm = tt
All-below k j ((i, w) ∷ m) h hm = (lt_bytes_trans k j i h hm.0, All-below k j m h hm.1)

pub insert_sorted-IsAscending :
    (k v : ByteString) (m : Map ByteString ByteString)
    → IsAscending m
    → IsAscending (insert_sorted k v m)
unfolding insert_sorted
insert_sorted-IsAscending k v [] a = (tt, tt)
insert_sorted-IsAscending k v ((j, w) ∷ m) a = elim (Bool-cases (j == k)) [
  | inl same ↦ rw (same, ← (bytes_beq_iff j k).0 same) a
  | inr other ↦ elim (Bool-cases (lt_bytes k j)) [
    | inl below ↦ rw (other, below) ((below, All-below k j m below a.0), a)
    | inr above ↦
        rw (other, above)
          (
            All-insert_sorted (λ kv. lt_bytes j kv.0 ≡ true) k v m
                (lt_bytes_total k j above (ground (arith, bytes_beq_iff j k, bytes_beq_iff k j)))
                a.0,
            insert_sorted-IsAscending k v m a.1,
          )
  ]
]

pub delete-IsAscending :
    (k : ByteString) (m : Map ByteString ByteString) → IsAscending m → IsAscending (delete k m)
unfolding delete
delete-IsAscending k [] a = tt
delete-IsAscending k ((j, w) ∷ m) a =
    ground (arith, delete-IsAscending k m a.1, All-delete (λ kv. lt_bytes j kv.0 ≡ true) k m a.0)

abbrev Table : Type 0 → Type 0
Table V = (m : Map String V) × HasDistinctKeys m

abbrev Sorted : Type 0
Sorted = (m : Map ByteString ByteString) × IsAscending m

pub lookup_nil : {V : Type 0} (k : String) → lookup {V = V} k [] ≡ none
unfolding lookup
lookup_nil k = refl

abbrev pub list_bolt : Bolt
list_bolt = record {
  Bucket = Table;
  empty = ([], tt);
  get = λ b k. lookup k b.0;
  put = λ b k v. (insert k v b.0, insert-HasDistinctKeys k v b.0 b.1);
  delete = λ b k. (delete k b.0, delete-HasDistinctKeys k b.0 b.1);
  entries = λ b. b.0;
  get-empty = lookup_nil;
  get-put = λ b k j v. lookup-insert k j v b.0;
  get-delete = λ b k j. lookup-delete k j b.0;
  get-entries = λ b k. refl;
  entries_distinct = λ b. b.1;
  Hours = Sorted;
  no_hours = ([], tt);
  hour_put = λ b k v. (insert_sorted k v b.0, insert_sorted-IsAscending k v b.0 b.1);
  hour_delete = λ b k. (delete k b.0, delete-IsAscending k b.0 b.1);
  hours = λ b. b.0;
  hours-no_hours = refl;
  lookup-hour_put = λ b k j v. lookup-insert_sorted k j v b.0;
  lookup-hour_delete = λ b k j. lookup-delete k j b.0;
  hours_ascend = λ b. b.1;
}
