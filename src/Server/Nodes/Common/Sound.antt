-- ===== src/Server/Nodes/Common/Sound.antt =====
-- What a node is like after `applyCommon`.
use gost_webui.Prelude.{
  ◌≡◌, refl, ap, ◌∙◌, Bool, true, false, not, ◌&&◌, Option, arith, string_eq, nat_eq, if◌then◌else◌,
}
use gost_webui.Prelude.Int.{ℤ, pos, negsuc, int_eq, int_ltb}
use gost_webui.Model.{Node}
use gost_webui.Server.Nodes.{NodeInput, InputError, Env, refuse_if, Gives, >>=-Gives, port_taken}
use gost_webui.Server.Nodes.Ports.{DrawsFit}
use gost_webui.Server.Nodes.Common.{
  apply_common, chosen_port, checked_quota, checked_rate, with_since, is_new_port, chosen_udp,
  chosen_enabled,
}
use gost_webui.Server.Nodes.Common.Limits.{
  IsQuota, IsRate, SameKind, IsQuoted, IsRated, checked_quota-IsQuoted, checked_rate-IsRated,
}
use gost_webui.Server.Nodes.Common.Numbers.{IsPort, OldFits, chosen_port-IsPort}

pub record IsCommon (env : Env) (old : Option Node) (n n' : Node) : Type 0 where
  pub free : is_new_port old n'.listen_port ≡ true → env.port_free n'.listen_port ≡ true
  pub kind : SameKind n n'
  pub port : IsPort n'.listen_port
  pub quota : IsQuota n'.quota
  pub rate : IsRate n'
  pub conns : int_ltb n'.conn_limit (pos 0) ≡ false

pub refuse_if-Gives : (b : Bool) (e : InputError) → Gives (refuse_if b e) (λ _. b ≡ false)
refuse_if-Gives true e = tt
refuse_if-Gives false e = refl

not_below_zero : (z : ℤ) → int_ltb (if int_ltb z (pos 0) then pos 0 else z) (pos 0) ≡ false
not_below_zero (pos n) = ground arith
not_below_zero (negsuc n) = refl

common :
    (env : Env) (in_ : NodeInput) (old : Option Node) (udp : Bool) (n : Node) (port : ℤ)
    → IsPort port
    → (is_new_port old port && not (env.port_free port)) ≡ false
    → (q : Node)
    → IsQuoted
        (record n {
          udp = chosen_udp in_.udp old udp;
          listen_port = port;
          conn_limit = if int_ltb in_.conn_limit (pos 0) then pos 0 else in_.conn_limit;
        })
        q
    → (r : Node) → IsRated q r
    → IsCommon env old n
        (with_since env.now old (record r { enabled = chosen_enabled in_.enabled old }))
common env in_ old udp n port is_port_ free_ q quoted r rated =
    let same : r.listen_port ≡ port = rated.port ∙ quoted.port in
    record {
      free = rw same (λ new. ground (arith, new, free_));
      kind = record {
        id = rated.kind.id ∙ quoted.kind.id;
        mode = rated.kind.mode ∙ quoted.kind.mode;
        gost_local = rated.kind.gost_local ∙ quoted.kind.gost_local;
        gost_protocol = rated.kind.gost_protocol ∙ quoted.kind.gost_protocol;
        gost_transport = rated.kind.gost_transport ∙ quoted.kind.gost_transport;
        target_host = rated.kind.target_host ∙ quoted.kind.target_host;
        target_port = rated.kind.target_port ∙ quoted.kind.target_port;
        counter_pid = rated.kind.counter_pid ∙ quoted.kind.counter_pid;
      };
      port = rw same is_port_;
      quota = rw rated.quota quoted.quota;
      rate = record {
        in_bps = rated.rate.in_bps;
        out_bps = rated.rate.out_bps;
        some_bps = rated.rate.some_bps;
      };
      conns = rw (rated.conns, quoted.conns) (not_below_zero in_.conn_limit);
    }

-- A new node, with nothing set yet of what `applyCommon` sets.
pub apply_common-IsCommon :
    (env : Env) (in_ : NodeInput) (old : Option Node) (udp : Bool) (n : Node)
    → DrawsFit env.draws
    → OldFits old
    → n.quota.enabled ≡ false
    → n.rate.enabled ≡ false
    → Gives (apply_common env in_ old udp n) (IsCommon env old n)
unfolding apply_common
apply_common-IsCommon env in_ old udp n fit fits no_quota no_rate_ =
    let Q = IsCommon env old n in
    >>=-Gives IsPort Q (chosen_port env in_.listen_port old) _
      (chosen_port-IsPort env in_.listen_port old fit fits)
      (λ port is_port_.
        let n' : Node = record n {
          udp = chosen_udp in_.udp old udp;
          listen_port = port;
          conn_limit = if int_ltb in_.conn_limit (pos 0) then pos 0 else in_.conn_limit;
        } in
        >>=-Gives (λ _. (is_new_port old port && not (env.port_free port)) ≡ false) Q
          (refuse_if _ port_taken) _
          (refuse_if-Gives (is_new_port old port && not (env.port_free port)) port_taken)
          (λ _ free_.
            >>=-Gives (IsQuoted n') Q (checked_quota in_.quota n') _
              (checked_quota-IsQuoted in_.quota n' no_quota)
              (λ q quoted.
                >>=-Gives (IsRated q) Q (checked_rate in_.rate q) _
                  (checked_rate-IsRated in_.rate q (ap (λ r. r.enabled) quoted.rate ∙ no_rate_))
                  (λ r rated. common env in_ old udp n port is_port_ free_ q quoted r rated))))
