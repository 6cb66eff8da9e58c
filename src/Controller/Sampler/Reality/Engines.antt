-- ===== src/Controller/Sampler/Reality/Engines.antt =====
-- The first sample of a sing-box process that was started since the last one.
use gost_webui.Prelude.{
  ℕ, ◌<◌, ◌≡◌, ◌≢◌, refl, Bool, true, false, not, ◌||◌, Bool-cases, inl, inr, arith, ltb, ◌==◌,
  string_eq,
}
use gost_webui.Prelude.Int.{ℤ, negsuc, positive, int_eq, int_beq_iff}
use gost_webui.Prelude.Maps.{lookup}
use gost_webui.Model.{Node}
use gost_webui.Bolt.{Bolt}
use gost_webui.Store.Bytes.{u64_mod}
use gost_webui.Controller.Sampler.{Counters, Sampler, add64, delta, advance, is_some, record_sample}
use gost_webui.Controller.Sampler.Reality.{
  Clock, EngineStats, reality_baseline, sample_reality_node,
}

delta_zero : (cur : ℕ) → delta 0 cur ≡ cur
unfolding delta
delta_zero cur = ground arith

module _ (bolt : Bolt) where
  pub totals_from_zero :
      (hour : ℕ) (cur : Counters) (seen : Bool) (pid : ℤ) (n : Node) (s : Sampler bolt)
      → n.total_in < u64_mod
      → n.total_out < u64_mod
      → let n' = (record_sample bolt hour (record { inb = 0; outb = 0 }) cur seen pid n s).0 in
        (n'.total_in ≡ add64 n.total_in cur.inb) × (n'.total_out ≡ add64 n.total_out cur.outb)
  unfolding record_sample advance
  totals_from_zero hour cur seen pid n s small small' =
      rw (delta_zero cur.inb, delta_zero cur.outb)
        (elim (Bool-cases (ltb 0 cur.inb || ltb 0 cur.outb || not seen)) [
          | inl written ↦ rw written (refl, refl)
          | inr idle ↦ rw idle (ground (arith, small), ground (arith, small'))
        ])

  -- When the process of a sing-box node is not the one of its last sample, all bytes that the new
  -- process has counted by now are added to the node's totals, modulo 2^64. (The node's traffic was not
  -- reset meanwhile.)
  pub sample_reality_node_new_process :
      (clock : Clock) (hour : ℕ) (st : EngineStats) (n : Node) (s : Sampler bolt)
      → n.counter_pid ≢ negsuc 0
      → positive st.pid ≡ true
      → n.counter_pid ≢ st.pid
      → n.total_in < u64_mod
      → n.total_out < u64_mod
      → let n' = (sample_reality_node bolt clock hour st n s).0 in
        (n'.total_in ≡ add64 n.total_in st.up) × (n'.total_out ≡ add64 n.total_out st.down)
  unfolding sample_reality_node reality_baseline
  sample_reality_node_new_process clock hour st n s counting runs started small small' =
      let kept : (n.counter_pid == negsuc 0) ≡ false =
        ground (arith, int_beq_iff n.counter_pid (negsuc 0)) in
      let new : (n.counter_pid == st.pid) ≡ false =
        ground (arith, int_beq_iff n.counter_pid st.pid) in
      rw (kept, runs, new)
        (totals_from_zero hour (record { inb = st.up; outb = st.down })
          (is_some (lookup n.id s.last)) st.pid n s small small')
