-- ===== src/Controller/Sampler/Totals.antt =====
-- A node's totals across samples and across restarts of the panel.
use gost_webui.Prelude.{
  ℕ, ◌-◌, ◌≤◌, ◌<◌, String, ◌≡◌, refl, sym, not, ◌&&◌, ◌||◌, Bool-cases, inl, inr, List, [], ◌∷◌,
  arith, ltb, ◌==◌, eq_refl, nat_eq, string_eq,
}
use mathlib.Core.Path.{subst}
use gost_webui.Prelude.Maps.{Map, lookup, lookup-insert_self}
use gost_webui.Model.{Node}
use gost_webui.Bolt.{Bolt}
use gost_webui.Store.{Store, Result, ok, err, get_node, save_node}
use gost_webui.Store.Bytes.{u64_mod}
use gost_webui.Store.Hours.{add_traffic}
use gost_webui.Controller.Sampler.{
  Counters, Item, QuotaStatus, Sampler, add64, delta, node_sums, baseline, is_some, advance,
  record_sample, sample_node,
}

abbrev kept : Node → Counters
kept n = record { inb = n.counter_in; outb = n.counter_out }

delta_up : (a b : ℕ) → a ≤ b → delta a b ≡ b - a
unfolding delta
delta_up a b h = ground arith

module _ (bolt : Bolt) where
  open bolt use {get-put}

  -- The node as it is saved, with the counters of the last sample.
  pub record IsSynced (n : Node) (s : Sampler bolt) : Type 0 where
    pub disk : s.store.disk ≡ []
    pub base : baseline s.last n ≡ kept n
    pub saved : get_node bolt n.id s.store ≡ ok n
    pub small_in : n.total_in < u64_mod
    pub small_out : n.total_out < u64_mod

  -- What one sample does to a node that is in step, if the engine's counters have not fallen.
  pub record IsCounted (n : Node) (cur : Counters) (n' : Node) : Type 0 where
    pub counter_in : n'.counter_in ≡ cur.inb
    pub counter_out : n'.counter_out ≡ cur.outb
    pub total_in : n'.total_in ≡ add64 n.total_in (cur.inb - n.counter_in)
    pub total_out : n'.total_out ≡ add64 n.total_out (cur.outb - n.counter_out)

  disk-add_traffic :
      (id : String) (h a b : ℕ) (st : Store bolt)
      → st.disk ≡ []
      → (add_traffic bolt id h a b st).0.disk ≡ []
  unfolding add_traffic
  disk-add_traffic id h a b st e = elim (Bool-cases (a == 0 && b == 0)) [
    | inl idle ↦ rw idle e
    | inr busy ↦ rw (busy, e) refl
  ]

  save_node-saved :
      (n : Node) (st : Store bolt)
      → st.disk ≡ []
      → ((save_node bolt n st).0.disk ≡ []) × (get_node bolt n.id (save_node bolt n st).0 ≡ ok n)
  unfolding save_node get_node
  save_node-saved n st e = rw e (refl, rw (get-put, eq_refl n.id) refl)

  record_sample-IsCounted :
      (hour : ℕ) (cur : Counters) (n : Node) (s : Sampler bolt)
      → IsSynced n s
      → n.counter_in ≤ cur.inb
      → n.counter_out ≤ cur.outb
      → let r =
          record_sample bolt hour
            (baseline s.last n)
            cur
            (is_some (lookup n.id s.last))
            n.counter_pid
            n
            s in
        IsSynced r.0 r.1 × IsCounted n cur r.0
  unfolding record_sample advance
  record_sample-IsCounted hour cur n s y le_in le_out =
      let d_in = delta n.counter_in cur.inb in
      let d_out = delta n.counter_out cur.outb in
      let n' = advance d_in d_out cur n.counter_pid n in
      let st = (add_traffic bolt n.id hour d_in d_out s.store).0 in
      let up_in = delta_up n.counter_in cur.inb le_in in
      let up_out = delta_up n.counter_out cur.outb le_out in
      let empty_disk = disk-add_traffic n.id hour d_in d_out s.store y.disk in
      rw y.base
        (elim (Bool-cases (ltb 0 d_in || ltb 0 d_out || not (is_some (lookup n.id s.last)))) [
          | inl written ↦ rw written (
            record {
              disk = (save_node-saved n' st empty_disk).0;
              base = rw (lookup-insert_self n.id cur s.last) refl;
              saved = (save_node-saved n' st empty_disk).1;
              small_in = ground arith;
              small_out = ground arith;
            },
            record {
              counter_in = refl;
              counter_out = refl;
              total_in = rw up_in refl;
              total_out = rw up_out refl;
            },
          )
          | inr idle ↦
              let same_in : cur.inb ≡ n.counter_in = ground (arith, up_in) in
              let same_out : cur.outb ≡ n.counter_out = ground (arith, up_out) in
              rw idle (
                record {
                  disk = y.disk;
                  base = rw (lookup-insert_self n.id cur s.last) (ground arith);
                  saved = y.saved;
                  small_in = y.small_in;
                  small_out = y.small_out;
                },
                record {
                  counter_in = sym same_in;
                  counter_out = sym same_out;
                  total_in = ground (arith, y.small_in);
                  total_out = ground (arith, y.small_out);
                },
              )
        ])

  -- The sums of the node's services in what gost reports.
  abbrev pub reading : Map String Item → Node → Counters
  reading items n = record {
    inb = (node_sums items n).item.inb;
    outb = (node_sums items n).item.outb;
  }

  sample_node-IsCounted :
      (items : Map String Item) (quotas : Map String QuotaStatus) (hour : ℕ) (n : Node)
      (s : Sampler bolt)
      → IsSynced n s
      → n.counter_in ≤ (reading items n).inb
      → n.counter_out ≤ (reading items n).outb
      → IsSynced
          (sample_node bolt items quotas hour n s).0
          (sample_node bolt items quotas hour n s).1
        × IsCounted n (reading items n) (sample_node bolt items quotas hour n s).0
  unfolding sample_node
  sample_node-IsCounted items quotas hour n s y le_in le_out =
      let (synced, counted) = record_sample-IsCounted hour (reading items n) n s y le_in le_out in
      (
        record {
          disk = synced.disk;
          base = synced.base;
          saved = synced.saved;
          small_in = synced.small_in;
          small_out = synced.small_out;
        },
        counted,
      )

  -- A round of sampling, or a restart of the panel, which forgets `lastCounters` and loads the nodes.
  pub data Event : Type 0 where
    sampled : Map String Item → Map String QuotaStatus → ℕ → Event
    restarted : Event

  loaded : Result Node → Node → Node
  loaded (ok n) old = n
  loaded (err e) old = old

  pub run : List Event → Node → Sampler bolt → Node × Sampler bolt
  unfolding loaded
  run [] n s = (n, s)
  run (sampled items quotas hour ∷ es) n s =
      let (n', s') = sample_node bolt items quotas hour n s in run es n' s'
  run (restarted ∷ es) n s = run es (loaded (get_node bolt n.id s.store) n) (record s { last = [] })

  -- Along the events the counters that gost reports for the node never fall.
  abbrev pub Rises : List Event → Node → Sampler bolt → Type 0
  Rises [] n s = Unit
  Rises (sampled items quotas hour ∷ es) n s =
      (n.counter_in ≤ (reading items n).inb)
      × (n.counter_out ≤ (reading items n).outb)
      × Rises es (sample_node bolt items quotas hour n s).0
          (sample_node bolt items quotas hour n s).1
  Rises (restarted ∷ es) n s = Rises es n (record s { last = [] })

  -- What the panel has added to its totals is what the engine's counters have grown by.
  pub record IsExact (n n' : Node) : Type 0 where
    pub grows_in : n.counter_in ≤ n'.counter_in
    pub grows_out : n.counter_out ≤ n'.counter_out
    pub total_in : n'.total_in ≡ add64 n.total_in (n'.counter_in - n.counter_in)
    pub total_out : n'.total_out ≡ add64 n.total_out (n'.counter_out - n.counter_out)

  IsExact-refl : (n : Node) (s : Sampler bolt) → IsSynced n s → IsExact n n
  IsExact-refl n s y = record {
    grows_in = omega arith;
    grows_out = omega arith;
    total_in = omega (arith, y.small_in);
    total_out = omega (arith, y.small_out);
  }

  IsExact-trans :
      (n n' n'' : Node) (cur : Counters)
      → n.counter_in ≤ cur.inb
      → n.counter_out ≤ cur.outb
      → IsCounted n cur n'
      → IsExact n' n''
      → IsExact n n''
  IsExact-trans n n' n'' cur le_in le_out c e = record {
    grows_in = omega (arith, c.counter_in, e.grows_in);
    grows_out = omega (arith, c.counter_out, e.grows_out);
    total_in = omega (arith, c.counter_in, c.total_in, e.grows_in, e.total_in);
    total_out = omega (arith, c.counter_out, c.total_out, e.grows_out, e.total_out);
  }

  -- However often the panel is restarted between its samples, nothing is counted twice and nothing is
  -- missed: the totals grow (modulo 2^64) by what gost's counters grow by, from the counters that the
  -- node kept at the start to those of the last sample. (Every transaction commits, and the counters
  -- do not fall.)
  pub run-IsExact :
      (es : List Event) (n : Node) (s : Sampler bolt)
      → IsSynced n s
      → Rises es n s
      → IsExact n (run es n s).0
  unfolding run
  run-IsExact [] n s y r = IsExact-refl n s y
  run-IsExact (sampled items quotas hour ∷ es) n s y r =
      let (synced, counted) = sample_node-IsCounted items quotas hour n s y r.0 r.1 in
      let n' = (sample_node bolt items quotas hour n s).0 in
      let s' = (sample_node bolt items quotas hour n s).1 in
      IsExact-trans n n' (run es n' s').0 (reading items n) r.0 r.1 counted
        (run-IsExact es n' s' synced r.2)
  run-IsExact (restarted ∷ es) n s y r =
      let again : Sampler bolt = record s { last = [] } in
      let synced : IsSynced n again = record {
        disk = y.disk;
        base = unfold lookup in refl;
        saved = y.saved;
        small_in = y.small_in;
        small_out = y.small_out;
      } in
      let back : loaded (get_node bolt n.id s.store) n ≡ n = unfold loaded in rw y.saved refl in
      subst (λ m. IsExact n (run es m again).0) (sym back) (run-IsExact es n again synced r)
