-- ===== src/Controller/Sampler/Falls.antt =====
-- A sample after gost's counters have fallen.
use gost_webui.Prelude.{ℕ, ◌<◌, String, ◌≡◌, refl, some, arith, string_eq}
use gost_webui.Prelude.Maps.{Map, lookup, lookup-insert_self}
use gost_webui.Model.{Node}
use gost_webui.Bolt.{Bolt}
use gost_webui.Controller.Sampler.{
  Counters, Item, QuotaStatus, Sampler, delta, record_sample, sample_node,
}
use gost_webui.Controller.Sampler.Totals.{reading}

delta_down : (a b : ℕ) → b < a → delta a b ≡ 0
unfolding delta
delta_down a b h = ground arith

module _ (bolt : Bolt) where
  -- A counter that has fallen since the last sample belongs to an engine that was started again. What
  -- it has counted by now is added to no total; it only becomes the baseline of the next sample.
  pub sample_node_after_fall :
      (items : Map String Item) (quotas : Map String QuotaStatus) (hour : ℕ) (n : Node)
      (s : Sampler bolt) (prev : Counters)
      → lookup n.id s.last ≡ some prev
      → (reading bolt items n).inb < prev.inb
      → (reading bolt items n).outb < prev.outb
      → let r = sample_node bolt items quotas hour n s in
        (r.0 ≡ n) × (lookup n.id r.1.last ≡ some (reading bolt items n)) × (r.1.store ≡ s.store)
  unfolding sample_node record_sample
  sample_node_after_fall items quotas hour n s prev seen less_in less_out =
      let cur = reading bolt items n in
      rw (seen, delta_down prev.inb cur.inb less_in, delta_down prev.outb cur.outb less_out)
        (refl, lookup-insert_self n.id cur s.last, refl)
