-- ===== src/Server/Nodes/Common/Accepted.antt =====
-- What every node that is accepted satisfies, and how a chain of checks comes to it.
use gost_webui.Prelude.{
  ◌≡◌, refl, sym, ap, ◌∙◌, ◌⊎◌, inl, inr, String, Bool, true, false, Option, none, some, ◌==◌,
  string_eq,
}
use gost_webui.Prelude.Int.{pos, int_eq, int_ltb}
use gost_webui.Model.{Node}
use gost_webui.Gostmgr.Config.Names.{IsStored}
use gost_webui.Server.Nodes.{
  NodeInput, Env, Checked, ok, bad, ◌>>=◌, Gives, >>=-Gives, Gives-weaken,
}
use gost_webui.Server.Nodes.Ports.{DrawsFit}
use gost_webui.Server.Nodes.Common.{new_node_base, apply_common}
use gost_webui.Server.Nodes.Common.Numbers.{IsPort, OldFits}
use gost_webui.Server.Nodes.Common.Limits.{IsQuota, IsRate}
use gost_webui.Server.Nodes.Common.Sound.{IsCommon, apply_common-IsCommon}

-- The id of a node that is made.
abbrev pub id_of : Env → Option Node → String
id_of env none = env.fresh_id
id_of env (some old) = old.id

-- What every node that is accepted satisfies.
pub record IsAccepted (env : Env) (old : Option Node) (n : Node) : Type 0 where
  pub id : n.id ≡ id_of env old
  pub port : IsPort n.listen_port
  pub quota : IsQuota n.quota
  pub rate : IsRate n
  pub conns : int_ltb n.conn_limit (pos 0) ≡ false
  pub mode : (n.mode ≡ "gost") ⊎ (n.mode ≡ "reality") ⊎ (n.mode ≡ "link")
  pub target : (n.mode ≡ "reality") ⊎ IsPort n.target_port
  pub stored : IsStored n
  pub counter_pid : n.counter_pid ≡ pos 0

pub new_node_base-id : (env : Env) (old : Option Node) → (new_node_base env old).id ≡ id_of env old
unfolding new_node_base
new_node_base-id env none = refl
new_node_base-id env (some old) = refl

pub base_quota : (env : Env) (old : Option Node) → (new_node_base env old).quota.enabled ≡ false
unfolding new_node_base
base_quota env none = refl
base_quota env (some old) = refl

pub base_rate : (env : Env) (old : Option Node) → (new_node_base env old).rate.enabled ≡ false
unfolding new_node_base
base_rate env none = refl
base_rate env (some old) = refl

pub base_pid : (env : Env) (old : Option Node) → (new_node_base env old).counter_pid ≡ pos 0
unfolding new_node_base
base_pid env none = refl
base_pid env (some old) = refl

pub base_protocol : (env : Env) (old : Option Node) → (new_node_base env old).gost_protocol ≡ ""
unfolding new_node_base
base_protocol env none = refl
base_protocol env (some old) = refl

pub always : {A : Type 0} (m : Checked A) → Gives m (λ _. Unit {0})
always (ok a) = tt
always (bad e) = tt

false-ne-true : ¬ (◌≡◌ {A = Bool} false true)
false-ne-true q = cc

not_gost : (m : String) → (m ≡ "reality") ⊎ (m ≡ "link") → ¬ (m ≡ "gost")
not_gost m (inl e) q = absurd (false-ne-true (ap (λ s. s == "gost") (sym e ∙ q)))
not_gost m (inr e) q = absurd (false-ne-true (ap (λ s. s == "gost") (sym e ∙ q)))

-- A node that is not gost's has no protocol of gost.
pub plain-IsAccepted :
    (env : Env) (old : Option Node) (n n' : Node)
    → n.id ≡ id_of env old
    → (n.mode ≡ "reality") ⊎ (n.mode ≡ "link")
    → (n.mode ≡ "reality") ⊎ IsPort n.target_port
    → n.gost_protocol ≡ ""
    → n.counter_pid ≡ pos 0
    → IsCommon env old n n'
    → IsAccepted env old n'
plain-IsAccepted env old n n' id mode target protocol pid c = record {
  counter_pid = c.kind.counter_pid ∙ pid;
  id = c.kind.id ∙ id;
  port = c.port;
  quota = c.quota;
  rate = record { in_bps = c.rate.in_bps; out_bps = c.rate.out_bps; some_bps = c.rate.some_bps };
  conns = c.conns;
  mode = rw c.kind.mode (inr mode);
  target = rw (c.kind.mode, c.kind.target_port) target;
  stored = record {
    normal = inl (c.kind.gost_protocol ∙ protocol);
    accepted = λ e. absurd (not_gost n.mode mode (sym c.kind.mode ∙ e));
  };
}

module _ (env : Env) (in_ : NodeInput) (old : Option Node) (fit : DrawsFit env.draws)
    (fits : OldFits old) where
  -- A check of which only that it passed is needed.
  pub after :
      {A : Type 0} (m : Checked A) (f : A → Checked Node)
      → ((a : A) → Gives (f a) (IsAccepted env old))
      → Gives (m >>= f) (IsAccepted env old)
  after m f h = >>=-Gives (λ _. Unit {0}) (IsAccepted env old) m f (always m) (λ a _. h a)

  pub after_common :
      (n : Node) (udp : Bool)
      → n.quota.enabled ≡ false
      → n.rate.enabled ≡ false
      → ((n' : Node) → IsCommon env old n n' → IsAccepted env old n')
      → Gives (apply_common env in_ old udp n) (IsAccepted env old)
  after_common n udp q r h =
      Gives-weaken h (apply_common env in_ old udp n)
        (apply_common-IsCommon env in_ old udp n fit fits q r)
