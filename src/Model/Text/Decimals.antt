-- ===== src/Model/Text/Decimals.antt =====
-- `strconv.ParseInt` in base 10 for 64 bits, whose error the program ignores, and its round trip.
use Prim.Native.Char.{Char, code}
use Prim.Native.String.{[], ◌∷◌, ◌++◌, count}
use text.Mathlib.TextLemmas.{
  nil-append, cons-append, length-cons, length-nil, append-ne-nil_of_right_ne-nil,
}
use gost_webui.Prelude.{
  ℕ, zero, suc, ◌+◌, ◌-◌, ◌*◌, ◌/◌, ◌%◌, ◌^◌, ◌<◌, ◌≤◌, ◌≡◌, ◌≢◌, refl, ap, arith, String, false,
  ◌&&◌, Option, none, some, leb, ltb, ◌==◌, nat_eq, if◌then◌else◌, Bool-cases, inl, inr,
}
use gost_webui.Prelude.Int.{ℤ, pos, negsuc}
use gost_webui.Model.Text.{digit_char, digits_of, itoa}

abbrev pub max_int64 : ℕ
max_int64 = 2 ^ 63 - 1

parse_digits : ℕ → String → Option ℕ
parse_digits acc [] = some acc
parse_digits acc (c ∷ s) =
    let rest = parse_digits (acc * 10 + (code c - 48)) s in
    if leb 48 (code c) && leb (code c) 57 then rest else none

magnitude : String → Option ℕ
magnitude [] = none
magnitude (c ∷ s) = parse_digits 0 (c ∷ s)

-- What comes back with an error: 0 for a text that is no number, the bound for one out of range.
positive_of : Option ℕ → ℤ
positive_of none = pos 0
positive_of (some n) = if ltb max_int64 n then pos max_int64 else pos n

negative_of : Option ℕ → ℤ
negative_of none = pos 0
negative_of (some zero) = pos 0
negative_of (some (suc n)) = if ltb max_int64 n then negsuc max_int64 else negsuc n

unfoldable pub parse_int64 : String → ℤ
unfolding parse_digits magnitude positive_of negative_of
parse_int64 [] = pos 0
parse_int64 (c ∷ s) =
    if code c == 45
    then negative_of (magnitude s)
    else if code c == 43
    then positive_of (magnitude s)
    else positive_of (magnitude (c ∷ s))

code-digit_char : (d : ℕ) → d < 10 → code (digit_char d) ≡ 48 + d
unfolding digit_char
code-digit_char zero h = refl
code-digit_char (suc zero) h = refl
code-digit_char (suc (suc zero)) h = refl
code-digit_char (suc (suc (suc zero))) h = refl
code-digit_char (suc (suc (suc (suc zero)))) h = refl
code-digit_char (suc (suc (suc (suc (suc zero))))) h = refl
code-digit_char (suc (suc (suc (suc (suc (suc zero)))))) h = refl
code-digit_char (suc (suc (suc (suc (suc (suc (suc zero))))))) h = refl
code-digit_char (suc (suc (suc (suc (suc (suc (suc (suc zero)))))))) h = refl
code-digit_char (suc (suc (suc (suc (suc (suc (suc (suc (suc zero))))))))) h = refl
code-digit_char (suc (suc (suc (suc (suc (suc (suc (suc (suc (suc d)))))))))) h =
    absurd (omega (arith, h))

parse_one : (acc d : ℕ) → d < 10 → parse_digits acc (digit_char d ∷ []) ≡ some (acc * 10 + d)
unfolding parse_digits
parse_one acc d small = ground (arith, code-digit_char d small)

parse_digits-append :
    (acc v d : ℕ) (s : String)
    → d < 10
    → parse_digits acc s ≡ some v
    → parse_digits acc (s ++ (digit_char d ∷ [])) ≡ some (v * 10 + d)
unfolding parse_digits
parse_digits-append acc v d [] small h =
    let e : acc ≡ v = cc in rw (nil-append, ← e) (parse_one acc d small)
parse_digits-append acc v d (c ∷ s) small h =
    let more = parse_digits-append (acc * 10 + (code c - 48)) v d s small in
    elim (Bool-cases (leb 48 (code c) && leb (code c) 57)) [
      | inl digit ↦ rw (cons-append, digit) (more (rw digit at h))
      | inr other ↦ absurd (cc (rw other at h))
    ]

parse_digits-digits_of : (f n : ℕ) → n < f → parse_digits 0 (digits_of f n) ≡ some n
unfolding digits_of
parse_digits-digits_of zero n h = absurd (omega (arith, h))
parse_digits-digits_of (suc f) n h = elim (Bool-cases (ltb n 10)) [
  | inl one ↦
      let small : n < 10 = ground arith in
      rw one (unfold parse_digits in ground (arith, code-digit_char n small))
  | inr more ↦
      let big : 10 ≤ n = ground arith in
      rw
        (
          more,
          parse_digits-append 0 (n / 10) (n % 10) (digits_of f (n / 10)) (omega arith)
              (parse_digits-digits_of f (n / 10) (omega (arith, big, h))),
        )
        (ap some (omega arith))
]

parse_int64_digits :
    (s : String) (n : ℕ)
    → s ≢ ""
    → parse_digits 0 s ≡ some n
    → n ≤ max_int64
    → parse_int64 s ≡ pos n
unfolding parse_int64 parse_digits magnitude positive_of
parse_int64_digits [] n given h small = absurd (given refl)
parse_int64_digits (c ∷ s) n given h small =
    elim (Bool-cases (leb 48 (code c) && leb (code c) 57)) [
      | inr other ↦ absurd (cc (rw other at h))
      | inl digit ↦
          let plain : ((code c == 45) ≡ false) × ((code c == 43) ≡ false) = ground arith in
          rw (plain.0, plain.1, h) (ground arith)
    ]

cons_given : (c : Char) (s : String) → (c ∷ s) ≢ ""
cons_given c s e = omega (arith, ap count e, length-cons c s, length-nil)

digits_of_given : (f n : ℕ) → n < f → digits_of f n ≢ ""
unfolding digits_of
digits_of_given zero n h e = absurd (omega (arith, h))
digits_of_given (suc f) n h e = elim (Bool-cases (ltb n 10)) [
  | inl one ↦ cons_given (digit_char n) [] (rw one at e)
  | inr more ↦
      append-ne-nil_of_right_ne-nil (digits_of f (n / 10)) (cons_given (digit_char (n % 10)) [])
        (rw more at e)
]

-- A number that fits 64 bits is read back as it was printed.
pub parse_int64-itoa : (n : ℕ) → n ≤ max_int64 → parse_int64 (itoa (pos n)) ≡ pos n
unfolding itoa
parse_int64-itoa n small =
    parse_int64_digits (digits_of (suc n) n) n (digits_of_given (suc n) n (omega arith))
      (parse_digits-digits_of (suc n) n (omega arith)) small
