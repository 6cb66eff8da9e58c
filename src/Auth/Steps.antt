-- ===== src/Auth/Steps.antt =====
-- Which codes `Verify` accepts, and when.
use Prim.Native.String.{count}
use gost_webui.Prelude.{
  ℕ, zero, suc, ◌+◌, ◌≤◌, String, ◌≡◌, ◌≢◌, refl, sym, ap, ◌∙◌, true, false, not, ◌||◌, Option,
  none, some, List, [], ◌∷◌, ◌==◌, nat_eq, string_eq, eq_iff, arith, All, Bool-cases, inl, inr,
}
use mathlib.Core.Path.{subst}
use gost_webui.Prelude.Int.{ℤ, pos, negsuc}
use gost_webui.Model.Text.{trim_space, all_digits}
use gost_webui.Store.Bytes.{ByteString}
use gost_webui.Auth.{
  Crypto, digits, normalize_secret, hotp, counter, tried_steps, first_match, match_with, verify,
}

-- The step is that of the time, or the one before or after it.
pub data IsNear (c : ℕ) (s : ℤ) : Type 0 where
  at : (n : ℕ) → s ≡ pos n → n ≤ c + 1 → c ≤ n + 1 → IsNear c s
  before_first : c ≡ 0 → s ≡ negsuc 0 → IsNear c s

-- The code is six digits, and the code for the step under the secret's key.
pub record IsCodeOf (crypto : Crypto) (secret input : String) (s : ℤ) : Type 0 where
  pub key : ByteString
  pub decoded : crypto.decode_base32 (normalize_secret secret) ≡ some key
  pub has_key : key ≢ []
  pub size : count (trim_space input) ≡ digits
  pub numeric : all_digits (trim_space input) ≡ true
  pub matches : hotp crypto key s ≡ trim_space input

module _ (crypto : Crypto) (key : ByteString) (input : String) where
  first_match-All :
      (P : ℤ → Type 0) (ss : List ℤ) (s : ℤ)
      → All P ss
      → first_match crypto key input ss ≡ some s
      → P s × (hotp crypto key s ≡ input)
  unfolding first_match
  first_match-All P [] s h q = cc
  first_match-All P (r ∷ ss) s h q = elim (Bool-cases (hotp crypto key r == input)) [
    | inl same ↦
        let e : some r ≡ some s = rw same at q in
        let rs : r ≡ s = cc in
        subst (λ x. P x × (hotp crypto key x ≡ input)) rs (h.0, (eq_iff _ _).0 same)
    | inr other ↦ first_match-All P ss s h.1 (rw other at q)
  ]

  first_match-none :
      (ss : List ℤ)
      → first_match crypto key input ss ≡ none
      → All (λ s. hotp crypto key s ≢ input) ss
  unfolding first_match
  first_match-none [] q = tt
  first_match-none (r ∷ ss) q = elim (Bool-cases (hotp crypto key r == input)) [
    | inl same ↦ absurd (cc (rw same at q))
    | inr other ↦ (
      ground (arith, other, eq_iff (hotp crypto key r) input),
      first_match-none ss (rw other at q),
    )
  ]

tried_steps-All : (c : ℕ) → All (IsNear c) (tried_steps c)
unfolding tried_steps
tried_steps-All zero = (
  before_first refl refl,
  (at 0 refl (omega arith) (omega arith), (at 1 refl (omega arith) (omega arith), tt)),
)
tried_steps-All (suc c) = (
  at c refl (omega arith) (omega arith),
  (
    at (suc c) refl (omega arith) (omega arith),
    (at (suc (suc c)) refl (omega arith) (omega arith), tt),
  ),
)

-- The tried steps are all that are near.
near_tried : (P : ℤ → Type 0) (c : ℕ) (s : ℤ) → All P (tried_steps c) → IsNear c s → P s
unfolding tried_steps
near_tried P zero s h (before_first z e) = subst P (sym e) h.0
near_tried P (suc c) s h (before_first z e) = absurd (omega (arith, z))
near_tried P zero s h (at n e le ge) = elim (Bool-cases (n == 0)) [
  | inl first ↦ let n0 : n ≡ 0 = ground arith in subst P (sym (e ∙ ap pos n0)) h.1.0
  | inr later ↦ let n1 : n ≡ 1 = ground arith in subst P (sym (e ∙ ap pos n1)) h.1.1.0
]
near_tried P (suc c) s h (at n e le ge) = elim (Bool-cases (n == c)) [
  | inl back ↦ let q : n ≡ c = ground arith in subst P (sym (e ∙ ap pos q)) h.0
  | inr more ↦ elim (Bool-cases (n == suc c)) [
    | inl now ↦ let q : n ≡ suc c = ground arith in subst P (sym (e ∙ ap pos q)) h.1.0
    | inr ahead ↦ let q : n ≡ suc (suc c) = ground arith in subst P (sym (e ∙ ap pos q)) h.1.1.0
  ]
]

match_with-some :
    (crypto : Crypto) (secret input : String) (o : Option ByteString) (c : ℕ) (s : ℤ)
    → match_with crypto o input (tried_steps c) ≡ some s
    → IsNear c s × ((key : ByteString) × (o ≡ some key) × (key ≢ []) × (hotp crypto key s ≡ input))
unfolding match_with
match_with-some crypto secret input none c s q = cc
match_with-some crypto secret input (some []) c s q = cc
match_with-some crypto secret input (some (b ∷ bs)) c s q =
    let (near, same) =
      first_match-All crypto (b ∷ bs) input (IsNear c) (tried_steps c) s (tried_steps-All c) q in
    (near, (b ∷ bs, refl, λ e. cc, same))

match_with-none :
    (crypto : Crypto) (input : String) (key : ByteString) (c : ℕ) (s : ℤ)
    → key ≢ []
    → match_with crypto (some key) input (tried_steps c) ≡ none
    → IsNear c s
    → hotp crypto key s ≢ input
unfolding match_with
match_with-none crypto input [] c s given q near = absurd (given refl)
match_with-none crypto input (b ∷ bs) c s given q near =
    near_tried (λ x. hotp crypto (b ∷ bs) x ≢ input) c s
      (first_match-none crypto (b ∷ bs) input (tried_steps c) q) near

-- `Verify` answers only with a near step whose code was given, and it refuses no code of a near step.
pub verify_lem :
    (crypto : Crypto) (secret input : String) (t : ℕ)
    → ((s : ℤ)
        → verify crypto secret input t ≡ some s
        → IsNear (counter t) s × IsCodeOf crypto secret input s)
      × ((s : ℤ)
          → IsNear (counter t) s
          → IsCodeOf crypto secret input s
          → verify crypto secret input t ≢ none)
unfolding verify
verify_lem crypto secret input t = (
  λ s q.
      elim (Bool-cases
        (not (count (trim_space input) == digits) || not (all_digits (trim_space input)))) [
          | inl malformed ↦ absurd (cc (rw malformed at q))
          | inr formed ↦
              let (near, (key, e, given, same)) =
                match_with-some crypto secret (trim_space input)
                  (crypto.decode_base32 (normalize_secret secret)) (counter t) s (rw formed at q) in
              (
                near,
                record {
                  key = key;
                  decoded = e;
                  has_key = given;
                  size = ground arith;
                  numeric = ground arith;
                  matches = same;
                },
              )
        ],
  λ s near c q.
      let formed : (not (count (trim_space input) == digits) || not (all_digits (trim_space input)))
          ≡ false =
        ground (arith, c.size, c.numeric) in
      match_with-none crypto (trim_space input) c.key (counter t) s c.has_key
        (rw (formed, c.decoded) at q) near c.matches,
)
