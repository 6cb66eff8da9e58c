-- ===== src/Server/TwoFactor/Replay.antt =====
-- The steps of the codes that `verifyCode` records.
use gost_webui.Prelude.{
  ℕ, ◌+◌, ◌≤◌, ◌<◌, String, ◌≡◌, refl, sym, ap, ◌∙◌, Bool, true, false, none, some, arith, ◌==◌,
  string_eq, eq_refl, Bool-cases, inl, inr,
}
use gost_webui.Prelude.Int.{ℤ, pos, int_ltb}
use gost_webui.Model.Text.{itoa}
use gost_webui.Model.Text.Decimals.{max_int64, parse_int64-itoa}
use gost_webui.Bolt.{Bolt}
use gost_webui.Auth.{Crypto, counter, verify}
use gost_webui.Auth.Steps.{at, before_first, verify_lem}
use gost_webui.Store.{Store, Db, get_setting, set_setting, commit_done}
use gost_webui.Server.TwoFactor.{
  last_step_key, last_step, parsed_step, saved, used_step, verify_code,
}

module _ (bolt : Bolt) (crypto : Crypto) where
  open bolt use {get-put}

  -- The code passes as one that is to be recorded.
  abbrev pub Accepted : String → String → ℕ → Store bolt → Type 0
  Accepted secret input now st = (verify_code bolt crypto secret input true now st).0 ≡ none

  get_setting_written :
      (key value : String) (st : Store bolt)
      → (set_setting bolt key value st).1 ≡ true
      → get_setting bolt key (set_setting bolt key value st).0 ≡ some value
  unfolding get_setting set_setting
  get_setting_written key value st done =
      let new : Db bolt = record st.db { meta = bolt.put st.db.meta key value } in
      ap (λ (db : Db bolt). bolt.get db.meta key) (commit_done bolt st.disk st new done)
      ∙ rw (get-put, eq_refl key) refl

  saved-none :
      (r : Store bolt × Bool)
      → (saved bolt crypto r).0 ≡ none
      → (r.1 ≡ true) × ((saved bolt crypto r).1 ≡ r.0)
  unfolding saved
  saved-none (st, true) h = (refl, refl)
  saved-none (st, false) h = cc

  used_step-none :
      (now : ℕ) (st : Store bolt) (s : ℤ)
      → (used_step bolt crypto true now st (some s)).0 ≡ none
      → (int_ltb (last_step bolt crypto now st) s ≡ true)
        × (get_setting bolt last_step_key (used_step bolt crypto true now st (some s)).1
            ≡ some (itoa s))
  unfolding used_step
  used_step-none now st s h = elim (Bool-cases (int_ltb (last_step bolt crypto now st) s)) [
    | inr old ↦ absurd (cc (rw old at h))
    | inl new ↦
        let (done, same) = saved-none (set_setting bolt last_step_key (itoa s) st) (rw new at h) in
        (new, rw (new, same) (get_setting_written last_step_key (itoa s) st done))
  ]

  -- What an accepted code was, and what is kept of it.
  accepted :
      (secret input : String) (now : ℕ) (st : Store bolt) (s : ℤ)
      → verify crypto secret input now ≡ some s
      → Accepted secret input now st
      → (int_ltb (last_step bolt crypto now st) s ≡ true)
        × (get_setting bolt last_step_key (verify_code bolt crypto secret input true now st).1
            ≡ some (itoa s))
  unfolding verify_code
  accepted secret input now st s found h = elim (Bool-cases (secret == "")) [
    | inl unset ↦ absurd (cc (rw unset at h))
    | inr given ↦
        let q : (used_step bolt crypto true now st (some s)).0 ≡ none = rw (given, found) at h in
        rw (given, found) (used_step-none now st s q)
  ]

  last_step_kept :
      (now n : ℕ) (st : Store bolt)
      → get_setting bolt last_step_key st ≡ some (itoa (pos n))
      → n ≤ max_int64
      → n ≤ counter now + 2
      → last_step bolt crypto now st ≡ pos n
  unfolding last_step parsed_step
  last_step_kept now n st kept small near = rw (kept, parse_int64-itoa n small) (ground arith)

  -- While the clock does not go back, each code that logs in belongs to a later half minute than the
  -- one before it: no code is used twice, in whatever state its first use has left the store.
  pub verify_code-grows :
      (secret input secret' input' : String) (now now' : ℕ) (st : Store bolt) (s s' : ℤ)
      → 0 < counter now
      → counter now < max_int64
      → counter now ≤ counter now'
      → verify crypto secret input now ≡ some s
      → Accepted secret input now st
      → verify crypto secret' input' now' ≡ some s'
      → Accepted secret' input' now' (verify_code bolt crypto secret input true now st).1
      → int_ltb s s' ≡ true
  verify_code-grows secret input secret' input' now now' st s s' begun small later found ok found'
        ok' =
      let near = ((verify_lem crypto secret input now).0 s found).0 in
      let kept = (accepted secret input now st s found ok).1 in
      let st' = (verify_code bolt crypto secret input true now st).1 in
      let fresh = (accepted secret' input' now' st' s' found' ok').0 in
      elim near [
        | at n e le ge ↦
            let e' : last_step bolt crypto now' st' ≡ s =
              last_step_kept now' n st' (kept ∙ ap (λ x. some (itoa x)) e) (omega arith)
                (omega arith)
              ∙ sym e in
            rw e' at fresh
        | before_first z e ↦ absurd (omega (arith, z))
      ]
