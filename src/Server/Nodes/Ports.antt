-- ===== src/Server/Nodes/Ports.antt =====
-- The port that is picked for a node.
use gost_webui.Prelude.{
  ℕ, zero, suc, ◌+◌, ◌≤◌, ◌<◌, ◌≡◌, refl, sym, inl, inr, Bool, true, false, Option, none, some,
  Bool-cases, nat_beq_iff, ◌==◌, nat_eq, arith,
}
use gost_webui.Prelude.Int.{ℤ, pos}
use gost_webui.Server.Nodes.{Env, random_port, pick_port, pick_free_port}

-- A number that is drawn lies below the bound that was asked for.
abbrev pub DrawsFit : (ℕ → Option ℕ) → Type 0
DrawsFit draws = (i n : ℕ) → draws i ≡ some n → n ≤ 50000

-- The round's port is in the range.
random_port_bounds :
    (d : Option ℕ)
    → ((n : ℕ) → d ≡ some n → n ≤ 50000)
    → (10000 ≤ random_port 10000 d) × (random_port 10000 d ≤ 60000)
random_port_bounds none h = omega arith
random_port_bounds (some n) h = let le = h n refl in omega arith

-- The port `p` is that of the draw `k`, and is free.
abbrev IsDrawn : (ℤ → Bool) → (ℕ → Option ℕ) → ℕ → ℕ → Type 0
IsDrawn free draws k p = (p ≡ random_port 10000 (draws k)) × (free (pos p) ≡ true)

pick_port-some :
    (free : ℤ → Bool) (draws : ℕ → Option ℕ) (rounds i p : ℕ)
    → pick_port free draws rounds i ≡ some p
    → (k : ℕ) × (i ≤ k)
      × (k < i + rounds)
      × IsDrawn free draws k p
      × ((j : ℕ) → i ≤ j → j < k → free (pos (random_port 10000 (draws j))) ≡ false)
unfolding pick_port
pick_port-some free draws zero i p got = cc
pick_port-some free draws (suc rounds) i p got =
    elim (Bool-cases (free (pos (random_port 10000 (draws i))))) [
      | inl idle ↦
          let e : random_port 10000 (draws i) ≡ p = ground (arith, got, idle) in
          (i, omega arith, omega arith, (sym e, rw (← e) idle), λ j low high. absurd (omega arith))
      | inr busy ↦
          let (k, low, high, drawn, others) =
            pick_port-some free draws rounds (suc i) p (ground (arith, got, busy)) in
          (
            k,
            omega arith,
            omega arith,
            drawn,
            λ j above below. elim (Bool-cases (i == j)) [
              | inl same ↦ rw (← (nat_beq_iff i j).0 same) busy
              | inr other ↦ others j (ground (arith, above, other)) below
            ],
          )
    ]

pick_port-none :
    (free : ℤ → Bool) (draws : ℕ → Option ℕ) (rounds i : ℕ)
    → pick_port free draws rounds i ≡ none
    → (j : ℕ) → i ≤ j
    → j < i + rounds
    → free (pos (random_port 10000 (draws j))) ≡ false
unfolding pick_port
pick_port-none free draws zero i got j low high = absurd (omega arith)
pick_port-none free draws (suc rounds) i got j low high =
    elim (Bool-cases (free (pos (random_port 10000 (draws i))))) [
      | inl idle ↦ absurd (ground (arith, got, idle))
      | inr busy ↦ elim (Bool-cases (i == j)) [
        | inl same ↦ rw (← (nat_beq_iff i j).0 same) busy
        | inr other ↦
            pick_port-none free draws rounds (suc i) (ground (arith, got, busy)) j
              (ground (arith, low, other)) (omega arith)
      ]
    ]

-- A port that is picked is the first free one among those of the first fifty draws, and lies between 10000
-- and 60000; where none is picked, none of the fifty was free. Numbers drawn lie below their bound.
pub pick_free_port_lem :
    (env : Env)
    → DrawsFit env.draws
    → ((p : ℕ)
        → pick_free_port env ≡ some p
        → (10000 ≤ p)
          × (p ≤ 60000)
          × (env.port_free (pos p) ≡ true)
          × ((k : ℕ) × (k < 50)
              × (p ≡ random_port 10000 (env.draws k))
              × ((j : ℕ) → j < k → env.port_free (pos (random_port 10000 (env.draws j))) ≡ false)))
      × (pick_free_port env ≡ none
          → (j : ℕ) → j < 50
          → env.port_free (pos (random_port 10000 (env.draws j))) ≡ false)
unfolding pick_free_port
pick_free_port_lem env fit = (
  λ p got.
      let (k, _, high, (drawn, free), others) = pick_port-some env.port_free env.draws 50 0 p got in
      let (least, most) = random_port_bounds (env.draws k) (fit k) in
      (
        rw drawn least,
        rw drawn most,
        free,
        (k, high, drawn, λ j below. others j (omega arith) below),
      ),
  λ got j high. pick_port-none env.port_free env.draws 50 0 got j (omega arith) (omega arith),
)
