-- ===== src/Store/Hours/Totals.antt =====
-- What `AddTraffic` records, and what it leaves alone.
use gost_webui.Prelude.{
  ℕ, ◌+◌, ◌%◌, ◌<◌, String, ◌≡◌, refl, sym, ◌∙◌, ap, true, false, ◌&&◌, some, arith, ◌==◌, nat_eq,
  string_eq, eq_iff, beq_refl, if◌then◌else◌, length, take, drop, ◌++◌, Bool-cases, inl, inr,
}
use gost_webui.Prelude.Maps.{lookup}
use gost_webui.Bolt.{Bolt}
use gost_webui.Store.{Store, Db, commit_done, commit_failed}
use gost_webui.Store.Bytes.{
  bytes_eq, bytes_beq, bytes_beq_iff, u64_mod, put_uint64, uint64, uint64-put_uint64,
}
use gost_webui.Store.Hours.{hour_key, counters, sub_bucket, add_hour, add_traffic}

-- Two hours that fit 64 bits have one key only if they are one hour.
hour_key_inj : (h j : ℕ) → h < u64_mod → j < u64_mod → hour_key h ≡ hour_key j → h ≡ j
hour_key_inj h j small small' e =
    sym (uint64-put_uint64 h small) ∙ ap uint64 e ∙ uint64-put_uint64 j small'

hour_key_beq :
    (h j : ℕ) → h < u64_mod → j < u64_mod → bytes_beq (hour_key h) (hour_key j) ≡ (h == j)
hour_key_beq h j small small' = elim (Bool-cases (h == j)) [
  | inl same ↦
      let e : h ≡ j = ground arith in
      rw (← e) (ground (arith, (bytes_beq_iff (hour_key h) (hour_key h)).1 refl))
  | inr other ↦ elim (Bool-cases (bytes_beq (hour_key h) (hour_key j))) [
    | inl equal ↦
        absurd (ground (arith, hour_key_inj h j small small' ((bytes_beq_iff _ _).0 equal)))
    | inr different ↦ different ∙ sym other
  ]
]

pub halves :
    (a b : ℕ)
    → (length (put_uint64 a ++ put_uint64 b) ≡ 16)
      × (take 8 (put_uint64 a ++ put_uint64 b) ≡ put_uint64 a)
      × (drop 8 (put_uint64 a ++ put_uint64 b) ≡ put_uint64 b)
unfolding put_uint64
halves a b = (refl, refl, refl)

counters-put :
    (a b : ℕ) → a < u64_mod → b < u64_mod → counters (some (put_uint64 a ++ put_uint64 b)) ≡ (a, b)
unfolding counters
counters-put a b small small' =
    let (size, front, back) = halves a b in
    rw (size, front, back) (ground (arith, uint64-put_uint64 a small, uint64-put_uint64 b small'))

module _ (bolt : Bolt) where
  open bolt use {Hours, hours, hour_put, get, get-put, lookup-hour_put, hours-no_hours}

  -- The two counters of one hour of one node.
  abbrev pub traffic_at : String → ℕ → Store bolt → ℕ × ℕ
  traffic_at id h s = counters (lookup (hour_key h) (hours (sub_bucket bolt (get s.db.traffic id))))

  abbrev pub added : ℕ → ℕ → ℕ × ℕ → ℕ × ℕ
  added inb outb c = ((c.0 + inb) % u64_mod, (c.1 + outb) % u64_mod)

  counters-add_hour :
      (h j inb outb : ℕ) (b : Hours)
      → h < u64_mod
      → j < u64_mod
      → counters (lookup (hour_key j) (hours (add_hour bolt h inb outb b))) ≡ (
          if h == j
          then added inb outb (counters (lookup (hour_key j) (hours b)))
          else counters (lookup (hour_key j) (hours b)))
  unfolding add_hour
  counters-add_hour h j inb outb b small small' =
      let old = counters (lookup (hour_key h) (hours b)) in
      let new = added inb outb old in
      rw (lookup-hour_put, hour_key_beq h j small small')
        (elim (Bool-cases (h == j)) [
          | inl same ↦
              let e : h ≡ j = ground arith in
              rw (← e) (rw (beq_refl h) (counters-put new.0 new.1 (ground arith) (ground arith)))
          | inr other ↦ rw other refl
        ])

  Hour-add :
      (id k : String) (h j inb outb : ℕ) (s : Store bolt)
      → h < u64_mod
      → j < u64_mod
      → counters (
          lookup (hour_key j) (
            hours (
              sub_bucket bolt (
                get
                  (bolt.put s.db.traffic id
                    (add_hour bolt h inb outb (sub_bucket bolt (get s.db.traffic id))))
                  k))))
        ≡ (if id == k && h == j then added inb outb (traffic_at k j s) else traffic_at k j s)
  Hour-add id k h j inb outb s small small' =
      let b = sub_bucket bolt (get s.db.traffic id) in
      rw get-put (elim (Bool-cases (id == k)) [
        | inl same ↦
            let e : id ≡ k = (eq_iff id k).0 same in
            rw (same, ← e) (counters-add_hour h j inb outb b small small')
        | inr other ↦ rw other refl
      ])

  -- A transaction that commits adds to the two counters of the hour, modulo 2^64, and to those of no
  -- other hour and no other node; one that fails leaves the database as it was. (Two counts of 0
  -- start no transaction.)
  pub add_traffic_lem :
      (id : String) (h inb outb : ℕ) (s : Store bolt)
      → h < u64_mod
      → 0 < inb + outb
      → ((add_traffic bolt id h inb outb s).1 ≡ true
          → (k : String) (j : ℕ) → j < u64_mod
          → traffic_at k j (add_traffic bolt id h inb outb s).0
            ≡ (if id == k && h == j then added inb outb (traffic_at k j s) else traffic_at k j s))
        × ((add_traffic bolt id h inb outb s).1 ≡ false
            → (add_traffic bolt id h inb outb s).0.db ≡ s.db)
  unfolding add_traffic
  add_traffic_lem id h inb outb s small some_bytes =
      let skipped : (inb == 0 && outb == 0) ≡ false = ground arith in
      let new : Db bolt = record s.db {
        traffic =
            bolt.put s.db.traffic id
              (add_hour bolt h inb outb (sub_bucket bolt (get s.db.traffic id)));
      } in
      rw skipped (
        λ done k j small'.
            rw (commit_done bolt s.disk s new done) (Hour-add id k h j inb outb s small small'),
        commit_failed bolt s.disk s new,
      )
