-- ===== src/Auth.antt =====
-- internal/auth/totp.go: time-based codes, recovery codes and their normal forms. SHA-1's HMAC, SHA-256
-- and base32 are arguments. Times are Unix seconds; a step can be -1, in the first half minute of 1970.
pub mod Steps
pub mod Recovery
pub mod Tests
use Prim.Native.Char.{Char, code}
use Prim.Native.String.{count, ◌++◌ as join}
use gost_webui.Prelude.{
  ℕ, zero, suc, ◌+◌, ◌-◌, ◌*◌, ◌/◌, ◌%◌, ◌^◌, String, Bool, true, false, not, ◌&&◌, ◌||◌, Option,
  none, some, List, [], ◌∷◌, ltb, leb, ◌==◌, nat_eq, string_eq, if◌then◌else◌, length, take, drop,
}
use gost_webui.Prelude.Int.{ℤ, pos, negsuc}
use gost_webui.Model.Text.{codes, to_upper, to_lower, trim_space, itoa, keep_chars, all_digits}
use gost_webui.Store.Bytes.{ByteString, put_uint64, u64_mod}

abbrev pub digits : ℕ
digits = 6

abbrev pub period : ℕ
period = 30

abbrev pub recovery_code_len : ℕ
recovery_code_len = 10

-- The functions of Go's crypto packages and of base32, on bytes and texts.
pub record Crypto : Type 0 where
  pub hmac_sha1 : ByteString → ByteString → ByteString
  pub decode_base32 : String → Option ByteString
  pub sha256_hex : String → String

-- `NormalizeSecret`: blanks, dashes and tabs go.
is_separator : Char → Bool
is_separator c = code c == 32 || code c == 45 || code c == 9

unfoldable pub normalize_secret : String → String
unfolding is_separator
normalize_secret secret = to_upper (keep_chars (λ c. not (is_separator c)) secret)

-- `NormalizeRecoveryCode`: letters and digits only, in upper case.
is_code_char : Char → Bool
is_code_char c = leb b'A' (code c) && leb (code c) b'Z' || leb b'0' (code c) && leb (code c) b'9'

unfoldable pub normalize_recovery_code : String → String
unfolding is_code_char
normalize_recovery_code c = keep_chars is_code_char (to_upper c)

-- `counter`, and `Step`
unfoldable pub counter : ℕ → ℕ
counter t = t / period

-- The eight bytes of `uint64(c)`.
step_bytes : ℤ → ByteString
step_bytes (pos c) = put_uint64 c
step_bytes (negsuc c) = put_uint64 (u64_mod - (c + 1))

nth : ℕ → ByteString → ℕ
nth i [] = 0
nth zero (b ∷ bs) = b
nth (suc i) (b ∷ bs) = nth i bs

last_byte : ByteString → ℕ
last_byte [] = 0
last_byte (b ∷ []) = b
last_byte (b ∷ c ∷ bs) = last_byte (c ∷ bs)

-- `%06d`
zeros : ℕ → String
zeros zero = ""
zeros (suc n) = join "0" (zeros n)

padded : ℕ → String
unfolding zeros
padded n = let s = itoa (pos n) in join (zeros (digits - count s)) s

-- `hotp`: four bytes of the HMAC from an offset that its last byte gives.
unfoldable pub hotp : Crypto → ByteString → ℤ → String
unfolding step_bytes nth last_byte padded
hotp crypto key c =
    let sum = crypto.hmac_sha1 key (step_bytes c) in
    let off = last_byte sum % 16 in
    let v =
      ((nth off sum * 256 + nth (off + 1) sum) * 256 + nth (off + 2) sum) * 256
      + nth (off + 3) sum in
    padded (v % 2 ^ 31 % 10 ^ 6)

-- The steps that `Verify` tries, in order: one back, now, one ahead.
unfoldable pub tried_steps : ℕ → List ℤ
tried_steps zero = negsuc 0 ∷ pos 0 ∷ pos 1 ∷ []
tried_steps (suc c) = pos c ∷ pos (suc c) ∷ pos (suc (suc c)) ∷ []

unfoldable pub first_match : Crypto → ByteString → String → List ℤ → Option ℤ
first_match crypto key c [] = none
first_match crypto key c (s ∷ ss) =
    let rest = first_match crypto key c ss in if hotp crypto key s == c then some s else rest

match_with : Crypto → Option ByteString → String → List ℤ → Option ℤ
match_with crypto none c steps = none
match_with crypto (some []) c steps = none
match_with crypto (some (b ∷ bs)) c steps = first_match crypto (b ∷ bs) c steps

-- `Verify`: the step that the code belongs to. A text of six bytes that are digits is one of six
-- characters that are.
unfoldable pub verify : Crypto → String → String → ℕ → Option ℤ
unfolding match_with
verify crypto secret input t =
    let c = trim_space input in
    if not (count c == digits) || not (all_digits c)
    then none
    else match_with crypto (crypto.decode_base32 (normalize_secret secret)) c
        (tried_steps (counter t))

-- `HashRecoveryCode`
unfoldable pub hash_recovery_code : Crypto → String → String
hash_recovery_code crypto c = crypto.sha256_hex (normalize_recovery_code c)

-- `MatchRecoveryCode`, `none` for -1: the first of the hashes that is the code's.
unfoldable pub match_from : String → ℕ → List String → Option ℕ
match_from want i [] = none
match_from want i (h ∷ hs) =
    let rest = match_from want (suc i) hs in
    if want == to_lower (trim_space h) then some i else rest

unfoldable pub match_recovery_code : Crypto → String → List String → Option ℕ
match_recovery_code crypto c hashes = match_from (hash_recovery_code crypto c) 0 hashes
