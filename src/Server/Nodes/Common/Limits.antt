-- ===== src/Server/Nodes/Common/Limits.antt =====
-- Quotas and limits of rate that pass their checks.
use gost_webui.Prelude.{
  ◌≡◌, refl, ◌⊎◌, String, true, false, not, ◌&&◌, ◌||◌, Option, none, some, arith, ◌==◌, string_eq,
  eq_iff, nat_eq, if◌then◌else◌,
}
use gost_webui.Prelude.Int.{ℤ, pos, negsuc, positive, int_eq, int_ltb}
use gost_webui.Model.{Node, QuotaSpec, RateSpec}
use gost_webui.Server.Nodes.{
  QuotaInput, RateInput, ok, bad, Gives, Gives-if, bad_period, bad_bytes, bad_rate, no_rate,
}
use gost_webui.Server.Nodes.Common.{checked_quota, checked_rate, known_direction}

-- A quota that counts has a period, a direction and a number of bytes that are known.
pub record IsQuota (q : QuotaSpec) : Type 0 where
  pub period :
      q.enabled ≡ true → (q.period ≡ "daily") ⊎ (q.period ≡ "monthly") ⊎ (q.period ≡ "total")
  pub direction :
      q.enabled ≡ true → (q.direction ≡ "in") ⊎ (q.direction ≡ "out") ⊎ (q.direction ≡ "total")
  pub bytes : q.enabled ≡ true → positive q.bytes ≡ true

-- A limit of rate that counts limits at least one direction.
pub record IsRate (n : Node) : Type 0 where
  pub in_bps : n.rate.enabled ≡ true → int_ltb n.rate.in_bps (pos 0) ≡ false
  pub out_bps : n.rate.enabled ≡ true → int_ltb n.rate.out_bps (pos 0) ≡ false
  pub some_bps :
      n.rate.enabled ≡ true → (positive n.rate.in_bps ≡ true) ⊎ (positive n.rate.out_bps ≡ true)

-- The fields that `applyCommon` does not set.
pub record SameKind (n n' : Node) : Type 0 where
  pub id : n'.id ≡ n.id
  pub mode : n'.mode ≡ n.mode
  pub gost_local : n'.gost_local ≡ n.gost_local
  pub gost_protocol : n'.gost_protocol ≡ n.gost_protocol
  pub gost_transport : n'.gost_transport ≡ n.gost_transport
  pub target_host : n'.target_host ≡ n.target_host
  pub target_port : n'.target_port ≡ n.target_port
  pub counter_pid : n'.counter_pid ≡ n.counter_pid

SameKind-limits :
    (n : Node) (q : QuotaSpec) (r : RateSpec) → SameKind n (record n { quota = q; rate = r })
SameKind-limits n q r = record {
  id = refl;
  mode = refl;
  gost_local = refl;
  gost_protocol = refl;
  gost_transport = refl;
  target_host = refl;
  target_port = refl;
  counter_pid = refl;
}

pub record IsQuoted (n n' : Node) : Type 0 where
  pub kind : SameKind n n'
  pub port : n'.listen_port ≡ n.listen_port
  pub conns : n'.conn_limit ≡ n.conn_limit
  pub rate : n'.rate ≡ n.rate
  pub quota : IsQuota n'.quota

known_direction_lem :
    (d : String)
    → (known_direction d ≡ "in") ⊎ (known_direction d ≡ "out") ⊎ (known_direction d ≡ "total")
known_direction_lem d = ground (arith, eq_iff d "in", eq_iff d "out")

period_known :
    (p : String)
    → (p == "daily" || p == "monthly" || p == "total") ≡ true
    → (p ≡ "daily") ⊎ (p ≡ "monthly") ⊎ (p ≡ "total")
period_known p h = ground (arith, h, eq_iff p "daily", eq_iff p "monthly", eq_iff p "total")

pub checked_quota-IsQuoted :
    (q : Option QuotaInput) (n : Node)
    → n.quota.enabled ≡ false
    → Gives (checked_quota q n) (IsQuoted n)
unfolding checked_quota
checked_quota-IsQuoted none n off = record {
  kind = SameKind-limits n n.quota n.rate;
  port = refl;
  conns = refl;
  rate = refl;
  quota = record { period = λ on. cc; direction = λ on. cc; bytes = λ on. cc };
}
checked_quota-IsQuoted (some q) n off =
    let spec : QuotaSpec = record {
      enabled = q.enabled;
      period = q.period;
      bytes = q.bytes;
      direction = if q.enabled then known_direction q.direction else q.direction;
    } in
    Gives-if (IsQuoted n)
      (q.enabled && not (q.period == "daily" || q.period == "monthly" || q.period == "total"))
      (bad bad_period)
      (if q.enabled && not (positive q.bytes)
        then bad bad_bytes
        else ok (record n { quota = spec }))
      (λ _. tt)
      (λ known.
        Gives-if (IsQuoted n) (q.enabled && not (positive q.bytes)) (bad bad_bytes)
          (ok (record n { quota = spec })) (λ _. tt)
          (λ enough. record {
            kind = SameKind-limits n spec n.rate;
            port = refl;
            conns = refl;
            rate = refl;
            quota = record {
              period = λ on. period_known q.period (ground (arith, on, known));
              direction = λ on. rw on (known_direction_lem q.direction);
              bytes = λ on. ground (arith, on, enough);
            };
          }))

pub record IsRated (n n' : Node) : Type 0 where
  pub kind : SameKind n n'
  pub port : n'.listen_port ≡ n.listen_port
  pub conns : n'.conn_limit ≡ n.conn_limit
  pub quota : n'.quota ≡ n.quota
  pub rate : IsRate n'

some_rate :
    (a b : ℤ)
    → int_ltb a (pos 0) ≡ false
    → int_ltb b (pos 0) ≡ false
    → (a == pos 0 && b == pos 0) ≡ false
    → (positive a ≡ true) ⊎ (positive b ≡ true)
some_rate (pos a) (pos b) ha hb h = ground (arith, h)
some_rate (pos a) (negsuc b) ha hb h = cc
some_rate (negsuc a) b ha hb h = cc

pub checked_rate-IsRated :
    (r : Option RateInput) (n : Node)
    → n.rate.enabled ≡ false
    → Gives (checked_rate r n) (IsRated n)
unfolding checked_rate
checked_rate-IsRated none n off = record {
  kind = SameKind-limits n n.quota n.rate;
  port = refl;
  conns = refl;
  quota = refl;
  rate = record { in_bps = λ on. cc; out_bps = λ on. cc; some_bps = λ on. cc };
}
checked_rate-IsRated (some r) n off =
    let rate : RateSpec = record { enabled = r.enabled; in_bps = r.in_bps; out_bps = r.out_bps } in
    Gives-if (IsRated n) (r.enabled && (int_ltb r.in_bps (pos 0) || int_ltb r.out_bps (pos 0)))
      (bad bad_rate)
      (if r.enabled && (r.in_bps == pos 0 && r.out_bps == pos 0)
        then bad no_rate
        else ok (record n { rate = rate }))
      (λ _. tt)
      (λ sign.
        Gives-if (IsRated n) (r.enabled && (r.in_bps == pos 0 && r.out_bps == pos 0)) (bad no_rate)
          (ok (record n { rate = rate })) (λ _. tt)
          (λ nonzero. record {
            kind = SameKind-limits n n.quota rate;
            port = refl;
            conns = refl;
            quota = refl;
            rate = record {
              in_bps = λ on. ground (arith, on, sign);
              out_bps = λ on. ground (arith, on, sign);
              some_bps = λ on.
                  some_rate r.in_bps r.out_bps (ground (arith, on, sign)) (ground (arith, on, sign))
                    (ground (arith, on, nonzero));
            };
          }))
