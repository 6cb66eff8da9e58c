-- ===== src/Server/TwoFactor/Challenges.antt =====
-- Whom a login challenge is given to, and how many wrong codes it takes.
use gost_webui.Prelude.{
  ℕ, zero, suc, ◌+◌, ◌≤◌, ◌<◌, String, ◌≡◌, ◌≢◌, refl, sym, ◌∙◌, false, Option, none, some, arith,
  leb, ◌==◌, string_eq, eq_iff, Bool-cases, Option-cases, inl, inr,
}
use mathlib.Core.Path.{subst}
use gost_webui.Prelude.Maps.{lookup, insert, delete, lookup-insert_self, lookup-delete_self}
use gost_webui.Server.TwoFactor.{
  Challenge, Challenges, challenge_max_tries, lookup_challenge, found_challenge, fail_challenge,
  failed_challenge, is_stale,
}

-- What a client has to bring to use a challenge.
pub record IsUsable (token ip ua : String) (now : ℕ) (chals : Challenges) (c : Challenge)
    : Type 0 where
  pub named : token ≢ ""
  pub held : lookup token chals ≡ some c
  pub fresh : now ≤ c.expires
  pub same_ip : c.ip ≡ ip
  pub same_ua : c.ua ≡ ua
  pub tries_left : c.attempts < challenge_max_tries

found_challenge-IsUsable :
    (token ip ua : String) (now : ℕ) (chals : Challenges) (o : Option Challenge)
    → token ≢ ""
    → lookup token chals ≡ o
    → ((c : Challenge)
        → (found_challenge token ip ua now chals o).0 ≡ some c
        → IsUsable token ip ua now chals c × ((found_challenge token ip ua now chals o).1 ≡ chals))
      × ((found_challenge token ip ua now chals o).0 ≡ none
          → lookup token (found_challenge token ip ua now chals o).1 ≡ none)
unfolding found_challenge
found_challenge-IsUsable token ip ua now chals none named held = (λ c q. cc, λ q. held)
found_challenge-IsUsable token ip ua now chals (some d) named held =
    elim (Bool-cases (is_stale ip ua now d)) [
      | inl stale ↦ rw stale (λ c q. absurd (cc q), λ q. lookup-delete_self token chals)
      | inr good ↦ rw good (
        λ c q.
            let dc : d ≡ c = cc in
            (
              subst (IsUsable token ip ua now chals) dc record {
                named = named;
                held = held;
                fresh = ground arith;
                same_ip = ground (arith, good, eq_iff d.ip ip);
                same_ua = ground (arith, good, eq_iff d.ua ua);
                tries_left = ground arith;
              },
              refl,
            ),
        λ q. absurd (cc q),
      )
    ]

-- A challenge is only given to the client that it was made for, in its time and with tries left, and
-- stays as it is; a client that is refused leaves no challenge under its token.
pub lookup_challenge_lem :
    (token ip ua : String) (now : ℕ) (chals : Challenges)
    → token ≢ ""
    → ((c : Challenge)
        → (lookup_challenge token ip ua now chals).0 ≡ some c
        → IsUsable token ip ua now chals c × ((lookup_challenge token ip ua now chals).1 ≡ chals))
      × ((lookup_challenge token ip ua now chals).0 ≡ none
          → lookup token (lookup_challenge token ip ua now chals).1 ≡ none)
unfolding lookup_challenge
lookup_challenge_lem token ip ua now chals named =
    let some_name : (token == "") ≡ false = ground (arith, named, eq_iff token "") in
    rw some_name (found_challenge-IsUsable token ip ua now chals (lookup token chals) named refl)

-- The challenges after a number of wrong codes for one of them.
pub fail_times : ℕ → String → Challenges → Challenges
fail_times zero token chals = chals
fail_times (suc n) token chals = (fail_challenge token (fail_times n token chals)).1

failed_challenge-attempts :
    (token : String) (chals : Challenges) (o : Option Challenge) (n : ℕ)
    → lookup token chals ≡ o
    → ((c : Challenge) → o ≡ some c → n ≤ c.attempts)
    → (c : Challenge) → lookup token (failed_challenge token chals o).1 ≡ some c
    → (suc n ≤ c.attempts) × (c.attempts < challenge_max_tries)
unfolding failed_challenge
failed_challenge-attempts token chals none n held least c q = cc
failed_challenge-attempts token chals (some d) n held least c q =
    elim (Bool-cases (leb challenge_max_tries (d.attempts + 1))) [
      | inl last ↦
          let e : lookup token (delete token chals) ≡ some c = rw last at q in
          absurd (cc (lookup-delete_self token chals))
      | inr more ↦
          let d' : Challenge = record d { attempts = d.attempts + 1 } in
          let e : lookup token (insert token d' chals) ≡ some c = rw more at q in
          let e' : some d' ≡ some c = sym (lookup-insert_self token d' chals) ∙ e in
          let dc : d' ≡ c = cc in
          let le = least d refl in
          subst (λ x. (suc n ≤ x.attempts) × (x.attempts < challenge_max_tries)) dc
            (omega (arith, le), ground (arith, more))
    ]

-- A challenge that is left after n wrong codes, one at least, has counted them all and fewer than five.
pub fail_times-attempts :
    (n : ℕ) (token : String) (chals : Challenges) (c : Challenge)
    → lookup token (fail_times (suc n) token chals) ≡ some c
    → (suc n ≤ c.attempts) × (c.attempts < challenge_max_tries)
unfolding fail_times fail_challenge
fail_times-attempts zero token chals c q =
    failed_challenge-attempts token chals (lookup token chals) 0 refl (λ d e. omega arith) c q
fail_times-attempts (suc n) token chals c q =
    failed_challenge-attempts token (fail_times (suc n) token chals) _ (suc n) refl
      (λ d e. (fail_times-attempts n token chals d e).0) c q

-- Five wrong codes use a challenge up, whatever it had counted before.
pub fail_times-five :
    (token : String) (chals : Challenges)
    → lookup token (fail_times challenge_max_tries token chals) ≡ none
fail_times-five token chals = elim (Option-cases (lookup token (fail_times 5 token chals))) [
  | inl gone ↦ gone
  | inr (c, left) ↦ absurd (omega (arith, fail_times-attempts 4 token chals c left))
]
