-- ===== src/Auth/Recovery.antt =====
-- Which recovery code `MatchRecoveryCode` finds.
use gost_webui.Prelude.{
  ℕ, suc, ◌+◌, String, ◌≡◌, ◌≢◌, refl, ap, none, some, List, [], ◌∷◌, ◌++◌, ◌==◌, string_eq, eq_iff,
  arith, All, length, Bool-cases, inl, inr,
}
use mathlib.Core.Path.{subst}
use gost_webui.Model.Text.{to_lower, trim_space}
use gost_webui.Auth.{Crypto, hash_recovery_code, match_from, match_recovery_code}

-- A list around its first entry that is `want` in normal form, with the entry's index.
pub record FirstMatch (want : String) (i : ℕ) (hs : List String) : Type 0 where
  pub before : List String
  pub entry : String
  pub after : List String
  pub whole : hs ≡ before ++ (entry ∷ after)
  pub index : length before ≡ i
  pub matches : want ≡ to_lower (trim_space entry)
  pub first : All (λ h. want ≢ to_lower (trim_space h)) before

match_from-FirstMatch :
    (want : String) (i j : ℕ) (hs : List String)
    → match_from want i hs ≡ some j
    → (k : ℕ) × (j ≡ i + k) × FirstMatch want k hs
unfolding match_from
match_from-FirstMatch want i j [] q = cc
match_from-FirstMatch want i j (h ∷ hs) q = elim (Bool-cases (want == to_lower (trim_space h))) [
  | inl same ↦
      let e : some i ≡ some j = rw same at q in
      let ij : i ≡ j = cc in
      (
        0,
        omega (arith, ij),
        record {
          before = [];
          entry = h;
          after = hs;
          whole = refl;
          index = refl;
          matches = (eq_iff _ _).0 same;
          first = tt;
        },
      )
  | inr other ↦
      let (k, e, m) = match_from-FirstMatch want (suc i) j hs (rw other at q) in
      (
        suc k,
        omega (arith, e),
        record {
          before = h ∷ m.before;
          entry = m.entry;
          after = m.after;
          whole = ap (λ xs. h ∷ xs) m.whole;
          index = omega (arith, m.index);
          matches = m.matches;
          first = (ground (arith, other, eq_iff want (to_lower (trim_space h))), m.first);
        },
      )
]

match_from-none :
    (want : String) (i : ℕ) (hs : List String)
    → match_from want i hs ≡ none
    → All (λ h. want ≢ to_lower (trim_space h)) hs
unfolding match_from
match_from-none want i [] q = tt
match_from-none want i (h ∷ hs) q = elim (Bool-cases (want == to_lower (trim_space h))) [
  | inl same ↦ absurd (cc (rw same at q))
  | inr other ↦ (
    ground (arith, other, eq_iff want (to_lower (trim_space h))),
    match_from-none want (suc i) hs (rw other at q),
  )
]

-- The index is that of the first hash that is the code's, and without one there is none.
pub match_recovery_code_lem :
    (crypto : Crypto) (input : String) (hs : List String)
    → ((i : ℕ)
        → match_recovery_code crypto input hs ≡ some i
        → FirstMatch (hash_recovery_code crypto input) i hs)
      × (match_recovery_code crypto input hs ≡ none
          → All (λ h. hash_recovery_code crypto input ≢ to_lower (trim_space h)) hs)
unfolding match_recovery_code
match_recovery_code_lem crypto input hs = (
  λ i q.
      let want = hash_recovery_code crypto input in
      let (k, e, m) = match_from-FirstMatch want 0 i hs q in
      let ki : k ≡ i = omega (arith, e) in subst (λ n. FirstMatch want n hs) ki m,
  match_from-none (hash_recovery_code crypto input) 0 hs,
)
