-- ===== src/Store/Hours/Scan.antt =====
-- The walk of `RangeTraffic`'s cursor over the hours of a node.
use gost_webui.Prelude.{
  ℕ, ◌<◌, ◌≡◌, refl, sym, ◌∙◌, ap, Bool, true, ◌&&◌, some, [], ◌∷◌, ◌^◌, arith, ltb, leb, nat_eq,
  string_eq, length, keep_if, keep_if_whole, keep_if_empty, keep-keep, All-weaken, All-keep, map,
  All, Bool-cases, inl, inr,
}
use gost_webui.Prelude.Maps.{Map}
use gost_webui.Bolt.{Bolt, IsAscending}
use gost_webui.Store.Bytes.{
  ByteString, bytes_eq, u64_mod, uint64, lt_bytes, AreBytes, lt_bytes-uint64, uint64-put_uint64,
  put_uint64-AreBytes, length-put_uint64, signed-pos,
}
use gost_webui.Store.Hours.{local_hour_start, hour_key, seek, point_of, scan, points_in}

abbrev Table : Type 0
Table = Map ByteString ByteString

-- Keys of eight bytes, values of sixteen, and a time that is not before 1970: what `AddTraffic` writes for
-- such a time.
pub record IsHour (kv : ByteString × ByteString) : Type 0 where
  pub key_length : length kv.0 ≡ 8
  pub key_bytes : AreBytes kv.0
  pub value_length : length kv.1 ≡ 16
  pub since_1970 : uint64 kv.0 < 2 ^ 63

abbrev time_of : ByteString × ByteString → ℕ
time_of kv = uint64 kv.0

abbrev pub Later : Table → Type 0
Later [] = Unit
Later (x ∷ m) = All (λ kv. time_of x < time_of kv) m × Later m

later_head :
    (x : ByteString × ByteString) (m : Table)
    → IsHour x
    → All IsHour m
    → All (λ kv. lt_bytes x.0 kv.0 ≡ true) m
    → All (λ kv. time_of x < time_of kv) m
later_head x [] hx hm a = tt
later_head x (y ∷ m) hx hm a = (
  ground (
    arith,
    lt_bytes-uint64 x.0 y.0 (hx.key_length ∙ sym hm.0.key_length) hx.key_bytes hm.0.key_bytes,
    a.0,
  ),
  later_head x m hx hm.1 a.1,
)

-- The order of the cursor is the order of time.
pub IsAscending-Later : (m : Table) → All IsHour m → IsAscending m → Later m
IsAscending-Later [] h a = tt
IsAscending-Later (x ∷ m) h a = (later_head x m h.0 h.1 a.0, IsAscending-Later m h.1 a.1)

keep-Later : (p : ByteString × ByteString → Bool) (m : Table) → Later m → Later (keep_if p m)
unfolding keep_if
keep-Later p [] h = tt
keep-Later p (x ∷ m) h =
    ground (arith, keep-Later p m h.1, All-keep (λ kv. time_of x < time_of kv) p m h.0)

seek_lem :
    (start : ℕ) (m : Table)
    → start < u64_mod
    → All IsHour m
    → Later m
    → seek (hour_key start) m ≡ keep_if (λ kv. leb start (time_of kv)) m
unfolding seek keep_if
seek_lem start [] small h l = refl
seek_lem start (x ∷ m) small h l =
    let order =
      lt_bytes-uint64 x.0 (hour_key start) (h.0.key_length ∙ sym (length-put_uint64 start))
        h.0.key_bytes (put_uint64-AreBytes start) in
    let start_eq = uint64-put_uint64 start small in
    elim (Bool-cases (leb start (time_of x))) [
      | inl inside ↦
          let rest =
            keep_if_whole (λ kv. leb start (time_of kv)) m
              (All-weaken (λ kv (q : time_of x < time_of kv). ground arith) m l.0) in
          ground (arith, rest, order, start_eq)
      | inr before ↦ ground (arith, seek_lem start m small h.1 l.1, order, start_eq)
    ]

scan_lem :
    (to : ℕ) (m : Table)
    → All IsHour m
    → Later m
    → scan to m ≡ map (λ kv. point_of kv.0 kv.1) (keep_if (λ kv. ltb (time_of kv) to) m)
unfolding scan keep_if
scan_lem to [] h l = refl
scan_lem to (x ∷ m) h l = elim (Bool-cases (ltb (time_of x) to)) [
  | inl inside ↦ ground (
    arith,
    scan_lem to m h.1 l.1,
    h.0.key_length,
    h.0.value_length,
    signed-pos (uint64 x.0) h.0.since_1970,
  )
  | inr after ↦
      let rest =
        keep_if_empty (λ kv. ltb (time_of kv) to) m
          (All-weaken (λ kv (q : time_of x < time_of kv). ground arith) m l.0) in
      ground (arith, rest, h.0.key_length, h.0.value_length, signed-pos (uint64 x.0) h.0.since_1970)
]

module _ (bolt : Bolt) where
  open bolt use {Hours, hours, hours_ascend, get}

  -- For any interval, the hours returned are those of the node's sub-bucket that start in it, in the
  -- order of time, with the start of the interval rounded down to its hour.
  pub points_in-eq-filter :
      (from to : ℕ) (b : Hours)
      → local_hour_start from < u64_mod
      → All IsHour (hours b)
      → points_in bolt from to (some b)
        ≡ map
            (λ kv. point_of kv.0 kv.1)
            (keep_if
              (λ kv. leb (local_hour_start from) (uint64 kv.0) && ltb (uint64 kv.0) to)
              (hours b))
  unfolding points_in
  points_in-eq-filter from to b small h =
      let start = local_hour_start from in
      let late = IsAscending-Later (hours b) h (hours_ascend b) in
      let after = λ (kv : ByteString × ByteString). leb start (uint64 kv.0) in
      rw (seek_lem start (hours b) small h late) (
        scan_lem to (keep_if after (hours b)) (All-keep IsHour after (hours b) h)
          (keep-Later after (hours b) late)
        ∙ ap (map (λ kv. point_of kv.0 kv.1))
            (keep-keep after (λ kv. ltb (uint64 kv.0) to) (hours b)))
