-- ===== src/Server/TwoFactor/Codes.antt =====
-- What `consumeRecoveryCode` does to the list of hashes.
use gost_webui.Prelude.{
  ℕ, zero, suc, String, ◌≡◌, refl, ap, true, false, Option, none, some, List, [], ◌∷◌, ◌++◌, arith,
  length, take, drop, Bool-cases, inl, inr,
}
use gost_webui.Bolt.{Bolt}
use gost_webui.Auth.{Crypto, hash_recovery_code, match_recovery_code}
use gost_webui.Auth.Recovery.{FirstMatch, match_recovery_code_lem}
use gost_webui.Store.{update}
use gost_webui.Server.TwoFactor.{Factors, consume_recovery_code, used_recovery}

take_before :
    (xs : List String) (y : String) (ys : List String) (i : ℕ)
    → length xs ≡ i
    → take i (xs ++ (y ∷ ys)) ≡ xs
take_before [] y ys zero h = refl
take_before [] y ys (suc i) h = absurd (omega (arith, h))
take_before (x ∷ xs) y ys zero h = absurd (omega (arith, h))
take_before (x ∷ xs) y ys (suc i) h = ap (λ zs. x ∷ zs) (take_before xs y ys i (omega (arith, h)))

drop_after :
    (xs : List String) (y : String) (ys : List String) (i : ℕ)
    → length xs ≡ i
    → drop (suc i) (xs ++ (y ∷ ys)) ≡ ys
drop_after [] y ys zero h = refl
drop_after [] y ys (suc i) h = absurd (omega (arith, h))
drop_after (x ∷ xs) y ys zero h = absurd (omega (arith, h))
drop_after (x ∷ xs) y ys (suc i) h = drop_after xs y ys i (omega (arith, h))

cut_out :
    (want : String) (i : ℕ) (hs : List String) (m : FirstMatch want i hs)
    → take i hs ++ drop (suc i) hs ≡ m.before ++ m.after
cut_out want i hs m =
    rw
      (
        m.whole,
        take_before m.before m.entry m.after i m.index,
        drop_after m.before m.entry m.after i m.index,
      )
      refl

module _ (bolt : Bolt) (crypto : Crypto) where
  -- What is left of the hashes when the code is used: all but the first that is the code's.
  pub record IsUsedUp (input : String) (old new : List String) : Type 0 where
    pub index : ℕ
    pub found : FirstMatch (hash_recovery_code crypto input) index old
    pub rest : new ≡ found.before ++ found.after

  used_recovery-IsUsedUp :
      (input : String) (f : Factors bolt crypto) (o : Option ℕ)
      → match_recovery_code crypto input f.recovery ≡ o
      → ((used_recovery bolt crypto f o).0 ≡ true
          → IsUsedUp input f.recovery (used_recovery bolt crypto f o).1.recovery)
        × ((used_recovery bolt crypto f o).0 ≡ false
            → (used_recovery bolt crypto f o).1.recovery ≡ f.recovery)
  unfolding used_recovery
  used_recovery-IsUsedUp input f none q = (λ h. cc, λ h. refl)
  used_recovery-IsUsedUp input f (some i) q =
      let m = (match_recovery_code_lem crypto input f.recovery).0 i q in
      elim (Bool-cases (update bolt f.store f.store.db).1) [
        | inl done ↦ rw done (
          λ h. record { index = i; found = m; rest = cut_out _ i f.recovery m },
          λ h. absurd (cc h),
        )
        | inr failed ↦ rw failed (λ h. absurd (cc h), λ h. refl)
      ]

  -- A recovery code that passes takes one hash out of the list, the first that is the code's, and a
  -- code that does not pass leaves the list as it is.
  pub consume_recovery_code_lem :
      (input : String) (f : Factors bolt crypto)
      → ((consume_recovery_code bolt crypto input f).0 ≡ true
          → IsUsedUp input f.recovery (consume_recovery_code bolt crypto input f).1.recovery)
        × ((consume_recovery_code bolt crypto input f).0 ≡ false
            → (consume_recovery_code bolt crypto input f).1.recovery ≡ f.recovery)
  unfolding consume_recovery_code
  consume_recovery_code_lem input f = used_recovery-IsUsedUp input f _ refl
