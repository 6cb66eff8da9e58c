-- ===== src/Server/Nodes.antt =====
-- internal/server/handlers_nodes.go and handlers_reality.go: a node made from a request, with its checks.
-- The clock, random draws, the operating system's answers about ports, `net.ParseIP`, the parsing of a
-- landing link and the printing of a gost address are arguments.
pub mod Common
pub mod Gost
pub mod Build
pub mod Ports
pub mod Handlers
use mathlib.Core.Path.{subst}
use gost_webui.Prelude.{
  ◌≡◌, refl, ℕ, zero, suc, ◌+◌, String, Bool, true, false, not, ◌&&◌, ◌||◌, Option, none, some,
  List, [], ◌∷◌, leb, ltb, ◌==◌, string_eq, nat_eq, if◌then◌else◌, length,
}
use gost_webui.Prelude.Int.{ℤ, pos, int_eq}
use gost_webui.Model.{Node}
use gost_webui.Model.Text.{codes}

pub record QuotaInput : Type 0 where
  pub enabled : Bool
  pub period : String
  pub bytes : ℤ
  pub direction : String

pub record RateInput : Type 0 where
  pub enabled : Bool
  pub in_bps : ℤ
  pub out_bps : ℤ

pub record NodeInput : Type 0 where
  pub name : String
  pub link : String
  pub listen_port : ℤ
  pub udp : Option Bool
  pub target_host : String
  pub target_port : ℤ
  pub sni : String
  pub host : String
  pub enabled : Option Bool
  pub mode : String
  pub gost_local : Bool
  pub gost_protocol : String
  pub gost_transport : String
  pub gost_username : String
  pub gost_cipher : String
  pub gost_password : String
  pub gost_path : String
  pub reality_uuid : String
  pub reality_priv : String
  pub reality_pub : String
  pub reality_short_id : String
  pub reality_sni : String
  pub reality_ip_mode : String
  pub quota : Option QuotaInput
  pub rate : Option RateInput
  pub conn_limit : ℤ

-- What is used of a landing link.
pub record LinkInfo : Type 0 where
  pub scheme : String
  pub name : String
  pub host : String
  pub port : ℤ
  pub udp : Bool

-- What a request meets: the clock, the draws of `randomPort` (none where the source of random numbers
-- fails), a new id, token and password, and the functions named above.
pub record Env : Type 0 where
  pub now : ℕ
  pub draws : ℕ → Option ℕ
  pub fresh_id : String
  pub fresh_token : String
  pub fresh_password : String
  pub port_free : ℤ → Bool
  pub is_ip : String → Bool
  pub parse_link : String → Option LinkInfo
  pub client_url : Node → String → ℤ → Option String
  pub has_reality : Bool

pub data InputError : Type 0 where
  bad_mode no_link bad_link bad_target_port bad_target_host no_target_host : InputError
  bad_protocol bad_transport bad_cipher bad_combination bad_url : InputError
  bad_port no_free_port port_taken bad_period bad_bytes bad_rate no_rate : InputError
  no_singbox bad_server_name bad_ip_mode no_uuid no_keys no_short_id : InputError
  -- a nil pointer is read
  crash : InputError

pub data Checked (A : Type 0) : Type 0 where
  ok : A → Checked A
  bad : InputError → Checked A

infixl 5 ◌>>=◌ ◌>>◌
abbrev pub ◌>>=◌ : {A B : Type 0} → Checked A → (A → Checked B) → Checked B
ok a >>= f = f a
bad e >>= f = bad e

abbrev pub ◌>>◌ : {B : Type 0} → Checked (Unit {0}) → Checked B → Checked B
m >> k = m >>= λ _. k

abbrev pub refuse_if : Bool → InputError → Checked (Unit {0})
refuse_if true e = bad e
refuse_if false e = ok tt

-- What a check that passes gives.
abbrev pub Gives {ℓ} : {A : Type 0} → Checked A → (A → Type ℓ) → Type ℓ
Gives (ok a) P = P a
Gives (bad e) P = Unit

pub >>=-Gives {ℓ κ} :
    {A B : Type 0} (P : A → Type ℓ) (Q : B → Type κ) (m : Checked A) (f : A → Checked B)
    → Gives m P
    → ((a : A) → P a → Gives (f a) Q)
    → Gives (m >>= f) Q
>>=-Gives P Q (ok a) f h k = k a h
>>=-Gives P Q (bad e) f h k = tt

pub Gives-if {ℓ} :
    {A : Type 0} (P : A → Type ℓ) (b : Bool) (x y : Checked A)
    → (b ≡ true → Gives x P)
    → (b ≡ false → Gives y P)
    → Gives (if b then x else y) P
Gives-if P true x y hx hy = hx refl
Gives-if P false x y hx hy = hy refl

pub Gives-weaken {ℓ κ} :
    {A : Type 0} {P : A → Type ℓ} {Q : A → Type κ} (h : (a : A) → P a → Q a) (m : Checked A)
    → Gives m P
    → Gives m Q
Gives-weaken h (ok a) p = h a p
Gives-weaken h (bad e) p = tt

pub Gives-ok {ℓ} :
    {A : Type 0} (P : A → Type ℓ) (m : Checked A) (a : A) → m ≡ ok a → Gives m P → P a
Gives-ok P m a e h = subst (λ r. Gives r P) e h

-- `randomPort`, from the number drawn.
abbrev pub random_port : ℕ → Option ℕ → ℕ
random_port lo none = lo
random_port lo (some n) = lo + n

-- The rounds that are left of `pickFreePort`, which starts with 50.
pub pick_port : (ℤ → Bool) → (ℕ → Option ℕ) → ℕ → ℕ → Option ℕ
pick_port free draws zero i = none
pick_port free draws (suc rounds) i =
    let p = random_port 10000 (draws i) in
    let rest = pick_port free draws rounds (suc i) in if free (pos p) then some p else rest

unfoldable pub pick_free_port : Env → Option ℕ
unfolding pick_port
pick_free_port env = pick_port env.port_free env.draws 50 0

-- `strings.Split(s, ".")` on the code points, with the part that is read, last first.
abbrev pub split_dots : List ℕ → List ℕ → List (List ℕ)
split_dots part [] = part ∷ []
split_dots part (c ∷ cs) =
    let next = split_dots [] cs in
    let same = split_dots (c ∷ part) cs in if c == b'.' then part ∷ next else same

abbrev is_host_char : ℕ → Bool
is_host_char c =
    leb b'a' c && leb c b'z'
    || leb b'A' c && leb c b'Z'
    || leb b'0' c && leb c b'9'
    || c == b'-'
    || c == b'_'

abbrev all_host_chars : List ℕ → Bool
all_host_chars [] = true
all_host_chars (c ∷ cs) = is_host_char c && all_host_chars cs

abbrev all_labels : List (List ℕ) → Bool
all_labels [] = true
all_labels (l ∷ ls) =
    not (length l == 0) && not (ltb 63 (length l)) && all_host_chars l && all_labels ls

-- A text with other than ASCII characters is refused, so bytes may be counted as characters.
unfoldable pub valid_hostname : String → Bool
valid_hostname s =
    not (s == "") && not (ltb 253 (length (codes s))) && all_labels (split_dots [] (codes s))
