-- ===== src/Model/Names.antt =====
-- The names of gost's resources, compared.
use Prim.Native.String.{◌++◌, count}
use text.Mathlib.TextLemmas.{append_cancel_left, append_cancel_right, length-append, append_inj}
use gost_webui.Prelude.{String, ◌≡◌, ◌≢◌, arith, ap, eq_iff}
use gost_webui.Model.{tcp_name, udp_name, quota_name, limiter_name, climiter_name}

tail_lengths : (a b s t : String) → a ++ s ≡ b ++ t → count s ≡ count t → count a ≡ count b
tail_lengths a b s t e h = omega (arith, ap count e, length-append a s, length-append b t)

-- No two nodes share a service, and no node's TCP service is a node's UDP service. So for quotas
-- and limiters.
pub names_apart :
    (a b : String)
    → (tcp_name a ≡ tcp_name b → a ≡ b)
      × (udp_name a ≡ udp_name b → a ≡ b)
      × (tcp_name a ≢ udp_name b)
      × (quota_name a ≡ quota_name b → a ≡ b)
      × (limiter_name a ≡ limiter_name b → a ≡ b)
      × (climiter_name a ≡ climiter_name b → a ≡ b)
unfolding tcp_name udp_name quota_name limiter_name climiter_name
names_apart a b = (
  λ e. append_cancel_right a b "-tcp" (append_cancel_left "node-" (a ++ "-tcp") (b ++ "-tcp") e),
  λ e. append_cancel_right a b "-udp" (append_cancel_left "node-" (a ++ "-udp") (b ++ "-udp") e),
  λ e.
      let p = append_cancel_left "node-" (a ++ "-tcp") (b ++ "-udp") e in
      ground (
        arith,
        (append_inj p (tail_lengths a b "-tcp" "-udp" p (omega arith))).1,
        eq_iff "-tcp" "-udp",
      ),
  append_cancel_left "quota-" a b,
  append_cancel_left "limiter-" a b,
  append_cancel_left "climiter-" a b,
)
