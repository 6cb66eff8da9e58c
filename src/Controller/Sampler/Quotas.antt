-- ===== src/Controller/Sampler/Quotas.antt =====
-- What a round does to a sing-box node with a quota.
use gost_webui.Prelude.{
  ◌≤◌, ◌≡◌, refl, true, false, not, ◌&&◌, Bool-cases, inl, inr, ap, some, [], ◌∷◌, ◌++◌, arith, leb,
  nat_eq, string_eq, if◌then◌else◌,
}
use gost_webui.Prelude.Int.{pos_part}
use gost_webui.Prelude.Maps.{lookup, lookup-insert_self}
use gost_webui.Model.{Node, Live}
use gost_webui.Bolt.{Bolt}
use gost_webui.Controller.Sampler.{apply, Sampler}
use gost_webui.Controller.Sampler.Reality.{
  Clock, EngineStats, has_quota, quota_used, quota_verdict, enforce,
}

-- The node has a quota and has used at least as many bytes as it allows.
abbrev pub IsOver : (bolt : Bolt) → Clock → Node → Sampler bolt → Type 0
IsOver bolt clock n s =
    (has_quota n ≡ true) × (pos_part n.quota.bytes ≤ quota_used bolt clock n s.store)

module _ (bolt : Bolt) (clock : Clock) (st : EngineStats) (n : Node) (s : Sampler bolt) where
  abbrev after : Sampler bolt
  after = enforce bolt clock st n s

  verdict_over : IsOver bolt clock n s → (quota_verdict bolt clock n s.store).2 ≡ true
  unfolding quota_verdict
  verdict_over over = ground (arith, over.0, over.1)

  verdict_under : ¬ IsOver bolt clock n s → (quota_verdict bolt clock n s.store).2 ≡ false
  unfolding quota_verdict
  verdict_under h = elim (Bool-cases (has_quota n)) [
    | inl has ↦ elim (Bool-cases (leb (pos_part n.quota.bytes) (quota_used bolt clock n s.store))) [
      | inl reached ↦ absurd (h (has, ground arith))
      | inr below ↦ rw has below
    ]
    | inr none_set ↦ rw none_set refl
  ]

  -- A node over its quota is reported as blocked and not running, and its instance is stopped if it
  -- runs and never started. A node that is not is started exactly if it is enabled and does not
  -- run, and never stopped.
  pub enforce_lem :
      (IsOver bolt clock n s
        → ((lv : Live) × (lookup n.id after.live ≡ some lv)
            × (lv.quota_blocked ≡ true)
            × (lv.running ≡ false))
          × (after.engine ≡ s.engine ++ (if st.running then apply n.id false ∷ [] else [])))
      × (¬ IsOver bolt clock n s
          → ((lv : Live) × (lookup n.id after.live ≡ some lv)
              × (lv.quota_blocked ≡ false)
              × (lv.running ≡ st.running))
            × (after.engine
                ≡ s.engine ++ (if n.enabled && not st.running then apply n.id true ∷ [] else [])))
  unfolding enforce
  enforce_lem = (
    λ over. rw (verdict_over over) (
      (_, lookup-insert_self n.id _ s.live, refl, ground arith),
      ap (λ calls. s.engine ++ calls) (ground arith),
    ),
    λ under.
        rw (verdict_under under) ((_, lookup-insert_self n.id _ s.live, refl, ground arith), refl),
  )
