-- ===== src/Model/Text.antt =====
-- `strings.ToLower`, `strings.ToUpper`, `strings.TrimSpace` and decimal numbers, for the texts that
-- the program compares, which are ASCII: other letters keep their case here, and only ASCII's white
-- space is white.
pub mod Decimals
pub mod Normal
use Prim.Native.Char.{Char, code}
use Prim.Native.String.{[], ◌∷◌, ◌++◌}
use mathlib.Core.List.{List}
use gost_webui.Prelude.{
  ℕ, zero, suc, ◌-◌, ◌/◌, ◌%◌, ◌<◌, ◌≡◌, refl, arith, String, Bool, true, ◌&&◌, ◌||◌, leb, ltb,
  ◌==◌, nat_eq, string_eq, if◌then◌else◌,
}
use gost_webui.Prelude.Int.{ℤ, pos, negsuc}

-- The code points of a text.
abbrev pub codes : String → List ℕ
codes [] = List.[]
codes (c ∷ s) = List.◌∷◌ (code c) (codes s)

abbrev pick : String → ℕ → Char → Char
pick [] i d = d
pick (c ∷ s) zero d = c
pick (c ∷ s) (suc i) d = pick s i d

abbrev lower_letters : String
lower_letters = "abcdefghijklmnopqrstuvwxyz"

abbrev upper_letters : String
upper_letters = "ABCDEFGHIJKLMNOPQRSTUVWXYZ"

lower_char : Char → Char
lower_char c =
    if leb b'A' (code c) && leb (code c) b'Z' then pick lower_letters (code c - b'A') c else c

upper_char : Char → Char
upper_char c =
    if leb b'a' (code c) && leb (code c) b'z' then pick upper_letters (code c - b'a') c else c

unfoldable pub to_lower : String → String
unfolding lower_char
to_lower [] = []
to_lower (c ∷ s) = lower_char c ∷ to_lower s

unfoldable pub to_upper : String → String
unfolding upper_char
to_upper [] = []
to_upper (c ∷ s) = upper_char c ∷ to_upper s

-- Blank, tab, newline, vertical tab, form feed and carriage return.
abbrev pub is_space : Char → Bool
is_space c = code c == 32 || leb 9 (code c) && leb (code c) 13

trim_left : String → String
trim_left [] = []
trim_left (c ∷ s) = let rest = trim_left s in if is_space c then rest else c ∷ s

trim_right : String → String
trim_right [] = []
trim_right (c ∷ s) = let rest = trim_right s in if is_space c && rest == "" then [] else c ∷ rest

unfoldable pub trim_space : String → String
unfolding trim_left trim_right
trim_space s = trim_right (trim_left s)

digit_char : ℕ → Char
digit_char n = pick "0123456789" n "0"

-- The digits of a number, with fuel above the number.
digits_of : ℕ → ℕ → String
unfolding digit_char
digits_of zero n = ""
digits_of (suc f) n =
    let more = digits_of f (n / 10) ++ (digit_char (n % 10) ∷ []) in
    if ltb n 10 then digit_char n ∷ [] else more

-- `strconv.Itoa`, and `%d`
unfoldable pub itoa : ℤ → String
unfolding digits_of
itoa (pos n) = digits_of (suc n) n
itoa (negsuc n) = "-" ++ digits_of (suc (suc n)) (suc n)

-- More fuel than the number changes nothing.
digits_of_fuel : (f g n : ℕ) → n < f → n < g → digits_of f n ≡ digits_of g n
unfolding digits_of
digits_of_fuel zero g n h k = elim h [ ]
digits_of_fuel (suc f) zero n h k = elim k [ ]
digits_of_fuel (suc f) (suc g) n h k = ground (arith, digits_of_fuel f g (n / 10))

-- The characters that a test keeps.
unfoldable pub keep_chars : (Char → Bool) → String → String
keep_chars p [] = []
keep_chars p (c ∷ s) = let rest = keep_chars p s in if p c then c ∷ rest else rest

-- Every character is a decimal digit.
unfoldable pub all_digits : String → Bool
all_digits [] = true
all_digits (c ∷ s) = leb b'0' (code c) && leb (code c) b'9' && all_digits s

text_samples :
    (to_lower " TcP é" ≡ " tcp é")
    × (to_upper "ss" ≡ "SS")
    × (trim_space " \ta b \n" ≡ "a b")
    × (itoa (pos 10240) ≡ "10240")
    × (itoa (negsuc 0) ≡ "-1")
unfolding to_lower to_upper trim_space itoa
text_samples = (refl, refl, refl, refl, refl)
