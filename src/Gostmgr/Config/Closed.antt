-- ===== src/Gostmgr/Config/Closed.antt =====
-- What a service of the configuration refers to.
use gost_webui.Prelude.{
  String, ◌≡◌, ◌≢◌, refl, ap, Bool, true, false, ◌||◌, some, List, [], ◌∷◌, ◌++◌, ◌==◌, string_eq,
  eq_refl, arith, All, All-append, All-weaken, Bool-cases, inl, inr,
}
use gost_webui.Prelude.Maps.{lookup, lookup-insert_self}
use gost_webui.Model.{Node}
use gost_webui.Gostmgr.Schema.{flag, Service, Quota, Limiter, Config, Windows, BuildOptions}
use gost_webui.Gostmgr.Config.{
  quota_names, limiter_names, first_or_empty, attach, add_node, add_nodes, build_config,
  is_configured, node_quotas, node_limiters, node_climiters, node_services,
}

abbrev pub contains : String → List String → Bool
contains x [] = false
contains x (y ∷ ys) = y == x || contains x ys

-- The service's quotas and limits are among the declared ones, and gost counts its traffic.
pub record IsServed (quotas limiters climiters : List String) (s : Service) : Type 0 where
  pub quotas_declared : All (λ q. contains q quotas ≡ true) s.quotas
  pub limiter_declared : s.limiter ≢ "" → contains s.limiter limiters ≡ true
  pub climiter_declared : s.climiter ≢ "" → contains s.climiter climiters ≡ true
  pub stats : lookup "enableStats" s.metadata ≡ some (flag true)

abbrev pub AllServed : Config → Type 0
AllServed cfg =
    All
      (IsServed (quota_names cfg.quotas) (limiter_names cfg.limiters) (limiter_names cfg.climiters))
      cfg.services

contains-append :
    (x : String) (xs ys : List String) → contains x (xs ++ ys) ≡ (contains x xs || contains x ys)
contains-append x [] ys = refl
contains-append x (y ∷ xs) ys = ground (arith, contains-append x xs ys)

quota_names-append :
    (xs ys : List Quota) → quota_names (xs ++ ys) ≡ quota_names xs ++ quota_names ys
quota_names-append [] ys = refl
quota_names-append (x ∷ xs) ys = ap (λ zs. x.name ∷ zs) (quota_names-append xs ys)

limiter_names-append :
    (xs ys : List Limiter) → limiter_names (xs ++ ys) ≡ limiter_names xs ++ limiter_names ys
limiter_names-append [] ys = refl
limiter_names-append (x ∷ xs) ys = ap (λ zs. x.name ∷ zs) (limiter_names-append xs ys)

contains_left :
    (x : String) (xs ys : List String) → contains x xs ≡ true → contains x (xs ++ ys) ≡ true
contains_left x xs ys h = ground (arith, contains-append x xs ys)

contains_right :
    (x : String) (xs ys : List String) → contains x ys ≡ true → contains x (xs ++ ys) ≡ true
contains_right x xs ys h = ground (arith, contains-append x xs ys)

All-declared_left :
    (qs xs ys : List String)
    → All (λ q. contains q xs ≡ true) qs
    → All (λ q. contains q (xs ++ ys) ≡ true) qs
All-declared_left [] xs ys h = tt
All-declared_left (q ∷ qs) xs ys h = (contains_left q xs ys h.0, All-declared_left qs xs ys h.1)

All-declared_right :
    (qs xs ys : List String)
    → All (λ q. contains q ys ≡ true) qs
    → All (λ q. contains q (xs ++ ys) ≡ true) qs
All-declared_right [] xs ys h = tt
All-declared_right (q ∷ qs) xs ys h = (contains_right q xs ys h.0, All-declared_right qs xs ys h.1)

All-declared_self : (qs : List String) → All (λ q. contains q qs ≡ true) qs
All-declared_self [] = tt
All-declared_self (q ∷ qs) =
    (ground (arith, eq_refl q), All-declared_right qs (q ∷ []) qs (All-declared_self qs))

first_declared :
    (ls : List String) → first_or_empty ls ≢ "" → contains (first_or_empty ls) ls ≡ true
first_declared [] h = absurd (h refl)
first_declared (l ∷ ls) h = ground (arith, eq_refl l)

-- The services that a node brings with its own quota and limits.
attach-IsServed :
    (qs ls cs : List String) (ss : List Service)
    → All (IsServed qs ls cs) (attach qs (first_or_empty ls) (first_or_empty cs) ss)
unfolding attach
attach-IsServed qs ls cs [] = tt
attach-IsServed qs ls cs (s ∷ ss) = (
  record {
    quotas_declared = All-declared_self qs;
    limiter_declared = first_declared ls;
    climiter_declared = first_declared cs;
    stats = lookup-insert_self "enableStats" (flag true) s.metadata;
  },
  attach-IsServed qs ls cs ss,
)

-- More declarations, on either side, hide none.
IsServed-left :
    (qs ls cs qs' ls' cs' : List String) (s : Service)
    → IsServed qs ls cs s
    → IsServed (qs ++ qs') (ls ++ ls') (cs ++ cs') s
IsServed-left qs ls cs qs' ls' cs' s h = record {
  quotas_declared = All-declared_left s.quotas qs qs' h.quotas_declared;
  limiter_declared = λ q. contains_left s.limiter ls ls' (h.limiter_declared q);
  climiter_declared = λ q. contains_left s.climiter cs cs' (h.climiter_declared q);
  stats = h.stats;
}

IsServed-right :
    (qs ls cs qs' ls' cs' : List String) (s : Service)
    → IsServed qs' ls' cs' s
    → IsServed (qs ++ qs') (ls ++ ls') (cs ++ cs') s
IsServed-right qs ls cs qs' ls' cs' s h = record {
  quotas_declared = All-declared_right s.quotas qs qs' h.quotas_declared;
  limiter_declared = λ q. contains_right s.limiter ls ls' (h.limiter_declared q);
  climiter_declared = λ q. contains_right s.climiter cs cs' (h.climiter_declared q);
  stats = h.stats;
}

add_node-AllServed :
    (w : Windows) (opts : BuildOptions) (n : Node) (cfg : Config)
    → AllServed cfg
    → AllServed (add_node w opts n cfg)
unfolding add_node
add_node-AllServed w opts n cfg h =
    let qs = quota_names cfg.quotas in
    let ls = limiter_names cfg.limiters in
    let cs = limiter_names cfg.climiters in
    let qs' = quota_names (node_quotas w opts n) in
    let ls' = limiter_names (node_limiters n) in
    let cs' = limiter_names (node_climiters n) in
    elim (Bool-cases (is_configured n)) [
      | inr skipped ↦ rw skipped h
      | inl kept ↦
          rw
            (
              kept,
              quota_names-append,
              limiter_names-append cfg.limiters (node_limiters n),
              limiter_names-append cfg.climiters (node_climiters n),
            )
            (All-append _ cfg.services _
              (All-weaken (IsServed-left qs ls cs qs' ls' cs') cfg.services h)
              (All-weaken (IsServed-right qs ls cs qs' ls' cs') _
                (attach-IsServed qs' ls' cs' (node_services n))))
    ]

add_nodes-AllServed :
    (w : Windows) (opts : BuildOptions) (ns : List Node) (cfg : Config)
    → AllServed cfg
    → AllServed (add_nodes w opts ns cfg)
unfolding add_nodes
add_nodes-AllServed w opts [] cfg h = h
add_nodes-AllServed w opts (n ∷ ns) cfg h =
    add_nodes-AllServed w opts ns (add_node w opts n cfg) (add_node-AllServed w opts n cfg h)

-- Whatever the nodes are, every service of the configuration names only quotas and limits that the
-- configuration declares, and has its traffic counted by gost.
pub build_config-AllServed :
    (w : Windows) (opts : BuildOptions) (ns : List Node) → AllServed (build_config w opts ns)
unfolding build_config
build_config-AllServed w opts ns = add_nodes-AllServed w opts ns _ tt
