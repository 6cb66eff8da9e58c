-- ===== src/Controller/Traffic/Resets.antt =====
-- The first sample of a node after its traffic was reset.
use gost_webui.Prelude.{
  ℕ, ◌<◌, ◌≤◌, ◌-◌, ◌||◌, ◌∙◌, none, ltb, ◌==◌, String, ◌≡◌, refl, Bool, true, false, not, ◌&&◌,
  arith, string_eq,
}
use gost_webui.Prelude.Int.{ℤ, pos, negsuc, positive, int_eq, int_beq_iff}
use gost_webui.Prelude.Maps.{Map, lookup, delete, lookup-delete_self}
use gost_webui.Model.{Node, is_reality, service_names}
use gost_webui.Bolt.{Bolt}
use gost_webui.Store.{save_node}
use gost_webui.Store.Bytes.{u64_mod}
use gost_webui.Controller.Sampler.{
  Item, QuotaStatus, Sampler, Counters, delta, advance, record_sample, add64, sample_node,
  node_sums,
}
use gost_webui.Controller.Sampler.Totals.{reading}
use gost_webui.Controller.Sampler.Reality.{
  Clock, EngineStats, has_quota, reality_baseline, sample_reality_node,
}
use gost_webui.Controller.Sampler.Reality.Engines.{totals_from_zero}
use gost_webui.Controller.Traffic.{at_zero, reset_node, reset_node_traffic}

node_sums-at_zero :
    (items : Map String Item) (n : Node)
    → node_sums items (at_zero 0 0 (negsuc 0) n) ≡ node_sums items n
unfolding node_sums service_names
node_sums-at_zero items n = refl

or_true : (b : Bool) → (b || true) ≡ true
or_true true = refl
or_true false = refl

not_sentinel : (z : ℤ) → positive z ≡ true → (z == negsuc 0) ≡ false
not_sentinel (pos n) runs = refl
not_sentinel (negsuc n) runs = ground (arith, runs)

delta_since : (prev cur : ℕ) → prev ≤ cur → cur < u64_mod → add64 0 (delta prev cur) ≡ cur - prev
unfolding delta
delta_since prev cur le small = ground arith

and_false : (b : Bool) → (b && false) ≡ false
and_false true = refl
and_false false = refl

module _ (bolt : Bolt) where
  -- The quota is reset, where the node has one.
  abbrev pub IsReset : Bool → Node → Type 0
  IsReset quota_reset n = (has_quota n && not quota_reset) ≡ false

  -- The first sample after the reset of a node that gost carries, if gost has reset the node's quota or
  -- it has none: the totals, set to 0 by the reset, become the sums of all that gost's counters for the
  -- node's services hold at the sample.
  pub sample_node_after_reset :
      (items : Map String Item) (quotas : Map String QuotaStatus) (hour : ℕ)
      (quota_reset has_engine : Bool) (st : EngineStats) (n : Node) (s : Sampler bolt)
      → is_reality n ≡ false
      → IsReset quota_reset n
      → let r = reset_node_traffic bolt quota_reset has_engine st n s in
        let n' = (sample_node bolt items quotas hour r.0 r.1).0 in
        (n'.total_in ≡ add64 0 (reading bolt items n).inb)
        × (n'.total_out ≡ add64 0 (reading bolt items n).outb)
  unfolding sample_node reset_node_traffic reset_node
  sample_node_after_reset items quotas hour quota_reset has_engine st n s gost done =
      let zero : Node = at_zero 0 0 (negsuc 0) n in
      rw (done, gost, lookup-delete_self n.id s.last, node_sums-at_zero items n)
        (totals_from_zero bolt hour (reading bolt items n) false (negsuc 0) zero
          (record s { last = delete n.id s.last; store = (save_node bolt zero s.store).0 })
          (omega arith) (omega arith))

  totals_since :
      (hour : ℕ) (prev cur : Counters) (pid : ℤ) (n : Node) (s : Sampler bolt)
      → let n' = (record_sample bolt hour prev cur false pid n s).0 in
        (n'.total_in ≡ add64 n.total_in (delta prev.inb cur.inb))
        × (n'.total_out ≡ add64 n.total_out (delta prev.outb cur.outb))
  unfolding record_sample advance
  totals_since hour prev cur pid n s =
      rw (or_true (ltb 0 (delta prev.inb cur.inb) || ltb 0 (delta prev.outb cur.outb))) (refl, refl)

  totals_of_same_process :
      (clock : Clock) (hour : ℕ) (st : EngineStats) (n : Node) (s : Sampler bolt)
      → (n.counter_pid == negsuc 0) ≡ false
      → (n.counter_pid == st.pid) ≡ true
      → lookup n.id s.last ≡ none
      → let n' = (sample_reality_node bolt clock hour st n s).0 in
        (n'.total_in ≡ add64 n.total_in (delta n.counter_in st.up))
        × (n'.total_out ≡ add64 n.total_out (delta n.counter_out st.down))
  unfolding sample_reality_node reality_baseline
  totals_of_same_process clock hour st n s counting same missing =
      rw (counting, same, missing, and_false (positive st.pid))
        (totals_since hour (record { inb = n.counter_in; outb = n.counter_out })
          (record { inb = st.up; outb = st.down }) st.pid n s)

  -- When a sing-box node is reset while its engine answers and gost has reset the node's quota or it has
  -- none, the next sample of the same process sets the totals to what the engine's counters have grown
  -- by since the reset, as long as they do not fall.
  pub sample_reality_node_after_reset :
      (clock : Clock) (hour : ℕ) (quota_reset : Bool) (st st' : EngineStats) (n : Node)
      (s : Sampler bolt)
      → is_reality n ≡ true
      → IsReset quota_reset n
      → positive st.pid ≡ true
      → st'.pid ≡ st.pid
      → st.up ≤ st'.up
      → st.down ≤ st'.down
      → st'.up < u64_mod
      → st'.down < u64_mod
      → let r = reset_node_traffic bolt quota_reset true st n s in
        let n' = (sample_reality_node bolt clock hour st' r.0 r.1).0 in
        (n'.total_in ≡ st'.up - st.up) × (n'.total_out ≡ st'.down - st.down)
  unfolding reset_node_traffic reset_node
  sample_reality_node_after_reset clock hour quota_reset st st' n s sing done runs same up down
        small small' =
      let zero : Node = at_zero st.up st.down st.pid n in
      let ran : (st.pid == st'.pid) ≡ true = ground (arith, same, int_beq_iff st.pid st'.pid) in
      let kept : Sampler bolt = record s {
        last = delete n.id s.last;
        store = (save_node bolt zero s.store).0;
      } in
      let (totals_in, totals_out) =
        totals_of_same_process clock hour st' zero kept (not_sentinel st.pid runs) ran
          (lookup-delete_self n.id s.last) in
      rw (sing, runs, done)
        (
          totals_in ∙ delta_since st.up st'.up up small,
          totals_out ∙ delta_since st.down st'.down down small',
        )
