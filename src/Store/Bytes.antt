-- ===== src/Store/Bytes.antt =====
-- encoding/binary, as internal/store/store.go uses it for hour keys and traffic counters, and the
-- byte order in which bbolt keeps keys.
use gost_webui.Prelude.{
  ℕ, ◌+◌, ◌*◌, ◌/◌, ◌%◌, ◌^◌, ◌<◌, ◌≡◌, refl, ◌↔◌, Eq, ◌==◌, nat_eq, ◌&&◌, Bool, true, false, List,
  [], ◌∷◌, arith, ltb, if◌then◌else◌, length, All, ◌-◌,
}
use gost_webui.Prelude.Int.{ℤ, pos, negsuc}

abbrev pub ByteString : Type 0
ByteString = List ℕ

abbrev pub bytes_beq : ByteString → ByteString → Bool
bytes_beq [] [] = true
bytes_beq (a ∷ xs) (b ∷ ys) = a == b && bytes_beq xs ys
bytes_beq _ _ = false

pub bytes_beq_iff : (xs ys : ByteString) → (bytes_beq xs ys ≡ true) ↔ (xs ≡ ys)
bytes_beq_iff [] [] = ground arith
bytes_beq_iff [] (y ∷ ys) = ground arith
bytes_beq_iff (x ∷ xs) [] = ground arith
bytes_beq_iff (x ∷ xs) (y ∷ ys) = ground (arith, bytes_beq_iff xs ys)

instance abbrev pub bytes_eq : Eq ByteString
bytes_eq = record { test = bytes_beq; test_iff = bytes_beq_iff }

abbrev pub u64_mod : ℕ
u64_mod = 2 ^ 64

-- `binary.BigEndian.PutUint64`
unfoldable pub put_uint64 : ℕ → List ℕ
put_uint64 v =
    v / 2 ^ 56 % 256
    ∷ v / 2 ^ 48 % 256
    ∷ v / 2 ^ 40 % 256
    ∷ v / 2 ^ 32 % 256
    ∷ v / 2 ^ 24 % 256
    ∷ v / 2 ^ 16 % 256
    ∷ v / 2 ^ 8 % 256
    ∷ v % 256
    ∷ []

unfoldable pub uint64_from : ℕ → List ℕ → ℕ
uint64_from acc [] = acc
uint64_from acc (b ∷ bs) = uint64_from (acc * 256 + b) bs

-- `binary.BigEndian.Uint64` of eight bytes
abbrev pub uint64 : List ℕ → ℕ
uint64 bs = uint64_from 0 bs

pub uint64-put_uint64 : (v : ℕ) → v < u64_mod → uint64 (put_uint64 v) ≡ v
unfolding put_uint64 uint64_from
uint64-put_uint64 v h = omega arith

-- Go's `int64(n)`: the same 64 bits as a signed number
unfoldable pub signed : ℕ → ℤ
signed n = if ltb n (2 ^ 63) then pos n else negsuc (u64_mod - 1 - n)

pub signed-pos : (n : ℕ) → n < 2 ^ 63 → signed n ≡ pos n
unfolding signed
signed-pos n small = ground arith

-- `bytes.Compare` below 0: the order of bbolt's cursor
unfoldable pub lt_bytes : List ℕ → List ℕ → Bool
lt_bytes [] [] = false
lt_bytes [] (b ∷ bs) = true
lt_bytes (a ∷ xs) [] = false
lt_bytes (a ∷ xs) (b ∷ bs) =
    let rest = lt_bytes xs bs in if ltb a b then true else if ltb b a then false else rest

abbrev pub AreBytes : List ℕ → Type 0
AreBytes = All (λ b. b < 256)

uint64_from-lt :
    (a b : ℕ) (xs ys : List ℕ)
    → a < b
    → length xs ≡ length ys
    → AreBytes xs
    → AreBytes ys
    → uint64_from a xs < uint64_from b ys
unfolding uint64_from
uint64_from-lt a b [] [] h e hx hy = h
uint64_from-lt a b [] (y ∷ ys) h e hx hy = absurd (omega arith)
uint64_from-lt a b (x ∷ xs) [] h e hx hy = absurd (omega arith)
uint64_from-lt a b (x ∷ xs) (y ∷ ys) h e hx hy =
    uint64_from-lt (a * 256 + x) (b * 256 + y) xs ys (omega arith) (omega arith) hx.1 hy.1

lt_bytes-uint64_from :
    (a : ℕ) (xs ys : List ℕ)
    → length xs ≡ length ys
    → AreBytes xs
    → AreBytes ys
    → lt_bytes xs ys ≡ ltb (uint64_from a xs) (uint64_from a ys)
unfolding uint64_from lt_bytes
lt_bytes-uint64_from a [] [] e hx hy = ground arith
lt_bytes-uint64_from a [] (y ∷ ys) e hx hy = absurd (omega arith)
lt_bytes-uint64_from a (x ∷ xs) [] e hx hy = absurd (omega arith)
lt_bytes-uint64_from a (x ∷ xs) (y ∷ ys) e hx hy = ground (
  arith,
  lt_bytes-uint64_from (a * 256 + x) xs ys (omega arith) hx.1 hy.1,
  uint64_from-lt (a * 256 + x) (a * 256 + y) xs ys,
  uint64_from-lt (a * 256 + y) (a * 256 + x) ys xs,
)

-- Keys of one length that hold bytes stand in the order of the numbers that they encode.
pub lt_bytes-uint64 :
    (xs ys : List ℕ)
    → length xs ≡ length ys
    → AreBytes xs
    → AreBytes ys
    → lt_bytes xs ys ≡ ltb (uint64 xs) (uint64 ys)
lt_bytes-uint64 = lt_bytes-uint64_from 0

pub put_uint64-AreBytes : (v : ℕ) → AreBytes (put_uint64 v)
unfolding put_uint64
put_uint64-AreBytes v = omega arith

pub length-put_uint64 : (v : ℕ) → length (put_uint64 v) ≡ 8
unfolding put_uint64
length-put_uint64 v = refl

pub lt_bytes_irrefl : (xs : ByteString) → lt_bytes xs xs ≡ false
unfolding lt_bytes
lt_bytes_irrefl [] = refl
lt_bytes_irrefl (x ∷ xs) = ground (arith, lt_bytes_irrefl xs)
