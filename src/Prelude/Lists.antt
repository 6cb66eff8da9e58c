-- ===== src/Prelude/Lists.antt =====
-- Lists measured by native numbers, and predicates on all elements.
use Prim.Native.Nat.{ℕ, zero, suc, ◌+◌, ◌≤◌}
use mathlib.Core.Path.{◌≡◌, refl}
use mathlib.Core.Bool.{Bool, true, false, ◌&&◌}
use mathlib.Core.List.{List, [], ◌∷◌, ◌++◌}
use native.Mathlib.Omega.{arith}
use gost_webui.Prelude.Tests.{if◌then◌else◌}

module _ {ℓ} {A : Type ℓ} where
  abbrev pub length : List A → ℕ
  length [] = 0
  length (x ∷ xs) = suc (length xs)

  abbrev pub drop : ℕ → List A → List A
  drop zero xs = xs
  drop (suc n) [] = []
  drop (suc n) (x ∷ xs) = drop n xs

  abbrev pub take : ℕ → List A → List A
  take zero xs = []
  take (suc n) [] = []
  take (suc n) (x ∷ xs) = x ∷ take n xs

  unfoldable pub keep_if : (A → Bool) → List A → List A
  keep_if p [] = []
  keep_if p (x ∷ xs) = let rest = keep_if p xs in if p x then x ∷ rest else rest

  pub length-append : (xs ys : List A) → length (xs ++ ys) ≡ length xs + length ys
  length-append [] ys = omega arith
  length-append (x ∷ xs) ys = omega (arith, length-append xs ys)

  pub length-keep_if : (p : A → Bool) (xs : List A) → length (keep_if p xs) ≤ length xs
  unfolding keep_if
  length-keep_if p [] = omega arith
  length-keep_if p (x ∷ xs) = ground (arith, length-keep_if p xs)

module _ {ℓ κ} {A : Type ℓ} where
  abbrev pub All : (A → Type κ) → List A → Type κ
  All P [] = Unit
  All P (x ∷ xs) = P x × All P xs

  pub All-append : (P : A → Type κ) (xs ys : List A) → All P xs → All P ys → All P (xs ++ ys)
  All-append P [] ys hx hy = hy
  All-append P (x ∷ xs) ys hx hy = (hx.0, All-append P xs ys hx.1 hy)

module _ {A : Type 0} where
  pub keep_if_whole : (p : A → Bool) (m : List A) → All (λ x. p x ≡ true) m → keep_if p m ≡ m
  unfolding keep_if
  keep_if_whole p [] h = refl
  keep_if_whole p (x ∷ m) h = ground (arith, keep_if_whole p m h.1, h.0)

  pub keep_if_empty : (p : A → Bool) (m : List A) → All (λ x. p x ≡ false) m → keep_if p m ≡ []
  unfolding keep_if
  keep_if_empty p [] h = refl
  keep_if_empty p (x ∷ m) h = ground (arith, keep_if_empty p m h.1, h.0)

  pub All-weaken {κ μ} :
      {P : A → Type κ} {Q : A → Type μ} (f : (x : A) → P x → Q x) (m : List A) → All P m → All Q m
  All-weaken f [] h = tt
  All-weaken f (x ∷ m) h = (f x h.0, All-weaken f m h.1)

  pub All-keep {κ} : (P : A → Type κ) (p : A → Bool) (m : List A) → All P m → All P (keep_if p m)
  unfolding keep_if
  All-keep P p [] h = tt
  All-keep P p (x ∷ m) h = ground (arith, All-keep P p m h.1)

pub keep-keep :
    {A : Type 0} (p q : A → Bool) (m : List A)
    → keep_if q (keep_if p m) ≡ keep_if (λ x. p x && q x) m
unfolding keep_if
keep-keep p q [] = refl
keep-keep p q (x ∷ m) = ground (arith, keep-keep p q m)
