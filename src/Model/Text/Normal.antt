-- ===== src/Model/Text/Normal.antt =====
-- Trimming white space and lowering letters twice is the same as once.
use Prim.Native.Char.{Char, code}
use Prim.Native.String.{[], ◌∷◌}
use gost_webui.Prelude.{
  ℕ, zero, suc, ◌-◌, ◌<◌, ◌≡◌, refl, sym, ap, ◌∙◌, arith, String, Bool, true, false, not, ◌&&◌, leb,
  ◌==◌, nat_eq, string_eq, Bool-cases, inl, inr, eq_iff,
}
use gost_webui.Model.Text.{
  pick, lower_letters, lower_char, to_lower, is_space, trim_left, trim_right, trim_space,
}

-- A test that every character of a text passes is passed by the one that is picked.
all_chars : (Char → Bool) → String → Bool
all_chars p [] = true
all_chars p (c ∷ s) = p c && all_chars p s

size : String → ℕ
size [] = 0
size (c ∷ s) = suc (size s)

pick-all :
    (p : Char → Bool) (s : String) (i : ℕ) (d : Char)
    → all_chars p s ≡ true
    → i < size s
    → p (pick s i d) ≡ true
unfolding all_chars size
pick-all p [] i d h lt = absurd (omega arith)
pick-all p (c ∷ s) zero d h lt = ground (arith, h)
pick-all p (c ∷ s) (suc i) d h lt = pick-all p s i d (ground (arith, h)) (omega arith)

abbrev is_upper : Char → Bool
is_upper c = leb b'A' (code c) && leb (code c) b'Z'

abbrev is_plain : Char → Bool
is_plain c = not (is_upper c) && not (is_space c)

letters_plain : all_chars is_plain lower_letters ≡ true
unfolding all_chars
letters_plain = refl

lower_plain : (c : Char) → is_upper c ≡ true → is_plain (lower_char c) ≡ true
unfolding lower_char size
lower_plain c up =
    rw up (pick-all is_plain lower_letters (code c - b'A') c letters_plain (ground (arith, up)))

lower_other : (c : Char) → is_upper c ≡ false → lower_char c ≡ c
unfolding lower_char
lower_other c other = rw other refl

lower_char_idem : (c : Char) → lower_char (lower_char c) ≡ lower_char c
lower_char_idem c = elim (Bool-cases (is_upper c)) [
  | inl up ↦ lower_other (lower_char c) (ground (arith, lower_plain c up))
  | inr other ↦ ap lower_char (lower_other c other)
]

is_space-lower_char : (c : Char) → is_space (lower_char c) ≡ is_space c
is_space-lower_char c = elim (Bool-cases (is_upper c)) [
  | inl up ↦ ground (arith, lower_plain c up, up)
  | inr other ↦ ap is_space (lower_other c other)
]

to_lower_idem : (s : String) → to_lower (to_lower s) ≡ to_lower s
unfolding to_lower
to_lower_idem [] = refl
to_lower_idem (c ∷ s) = rw (lower_char_idem c, to_lower_idem s) refl

cons-not_empty : (c : Char) (s : String) → ((c ∷ s) == "") ≡ false
cons-not_empty c s = elim (Bool-cases ((c ∷ s) == "")) [
  | inl empty ↦ cc ((eq_iff (c ∷ s) "").0 empty)
  | inr full ↦ full
]

to_lower-empty : (s : String) → (to_lower s == "") ≡ (s == "")
unfolding to_lower
to_lower-empty [] = refl
to_lower-empty (c ∷ s) = cons-not_empty (lower_char c) (to_lower s) ∙ sym (cons-not_empty c s)

to_lower-trim_left : (s : String) → to_lower (trim_left s) ≡ trim_left (to_lower s)
unfolding to_lower trim_left
to_lower-trim_left [] = refl
to_lower-trim_left (c ∷ s) = rw (is_space-lower_char c) (elim (Bool-cases (is_space c)) [
  | inl space ↦ rw space (to_lower-trim_left s)
  | inr other ↦ rw other refl
])

to_lower-trim_right : (s : String) → to_lower (trim_right s) ≡ trim_right (to_lower s)
unfolding to_lower trim_right
to_lower-trim_right [] = refl
to_lower-trim_right (c ∷ s) =
    rw (is_space-lower_char c, ← to_lower-trim_right s, to_lower-empty (trim_right s))
      (elim (Bool-cases (is_space c && trim_right s == "")) [
        | inl gone ↦ rw gone refl
        | inr kept ↦ rw kept refl
      ])

to_lower-trim_space : (s : String) → to_lower (trim_space s) ≡ trim_space (to_lower s)
unfolding trim_space
to_lower-trim_space s = to_lower-trim_right (trim_left s) ∙ ap trim_right (to_lower-trim_left s)

trim_right_idem : (s : String) → trim_right (trim_right s) ≡ trim_right s
unfolding trim_right
trim_right_idem [] = refl
trim_right_idem (c ∷ s) = elim (Bool-cases (is_space c && trim_right s == "")) [
  | inl gone ↦ rw gone refl
  | inr kept ↦ rw (kept, trim_right_idem s, kept) refl
]

-- A text that does not begin with white space.
begins_dark : String → Bool
begins_dark [] = true
begins_dark (c ∷ s) = not (is_space c)

begins_dark-trim_left : (s : String) → begins_dark (trim_left s) ≡ true
unfolding trim_left begins_dark
begins_dark-trim_left [] = refl
begins_dark-trim_left (c ∷ s) = ground (arith, begins_dark-trim_left s)

trim_left_dark : (s : String) → begins_dark s ≡ true → trim_left s ≡ s
unfolding trim_left begins_dark
trim_left_dark [] h = refl
trim_left_dark (c ∷ s) h = ground (arith, h)

begins_dark-trim_right : (s : String) → begins_dark s ≡ true → begins_dark (trim_right s) ≡ true
unfolding trim_right begins_dark
begins_dark-trim_right [] h = refl
begins_dark-trim_right (c ∷ s) h = ground (arith, h)

trim_space_idem : (s : String) → trim_space (trim_space s) ≡ trim_space s
unfolding trim_space
trim_space_idem s =
    ap trim_right (
      trim_left_dark (trim_right (trim_left s))
        (begins_dark-trim_right (trim_left s) (begins_dark-trim_left s)))
    ∙ trim_right_idem (trim_left s)

-- `strings.ToLower(strings.TrimSpace(s))` is a normal form.
pub lower_trim_idem :
    (s : String) → to_lower (trim_space (to_lower (trim_space s))) ≡ to_lower (trim_space s)
lower_trim_idem s =
    ap to_lower (sym (to_lower-trim_space (trim_space s)) ∙ ap to_lower (trim_space_idem s))
    ∙ to_lower_idem (trim_space s)
