-- ===== src/Controller/Engine.antt =====
-- internal/controller/controller.go: the panel's nodes brought to gost and sing-box. The windows of
-- quotas are those that the clock is in during the call.
pub mod Services
pub mod Keeps
pub mod Nodes
pub mod Removal
mod Tests
use gost_webui.Prelude.{
  String, Bool, true, false, not, ◌&&◌, ◌||◌, Option, none, some, List, [], ◌∷◌, map, ◌==◌,
  string_eq, if◌then◌else◌,
}
use gost_webui.Model.{Node, is_reality, tcp_name, udp_name, quota_name, limiter_name, climiter_name}
use gost_webui.Bolt.{Bolt}
use gost_webui.Store.{Store, StoreError, Result, ok, err, list_nodes}
use gost_webui.Gostmgr.Schema.{Service, Config, BuildOptions, Windows}
use gost_webui.Gostmgr.Config.{build_config}
use gost_webui.Gostmgr.Client.{
  Gost, ApiError, Resource, service, quota, limiter, Call, nothing, ◌>>◌, ignored, upsert, delete,
}
use gost_webui.Singbox
use gost_webui.Singbox.{Pool, RealityCred}

-- What a call fails with: gost's answer, the store's, a configuration file that cannot be written, no
-- sing-box, or its pool.
pub data Failure : Type 0 where
  api : ApiError → Failure
  store : StoreError → Failure
  unwritten no_engine pool_error : Failure

-- `expected`
abbrev pub expects : List Service → String → Bool
expects [] name = false
expects (s ∷ ss) name = s.name == name || expects ss name

abbrev is_empty : {A : Type 0} → List A → Bool
is_empty [] = true
is_empty (x ∷ xs) = false

api_failure : Option ApiError → Option Failure
api_failure none = none
api_failure (some e) = some (api e)

-- `keep`
abbrev keep : Option Failure → Option Failure → Option Failure
keep none e = e
keep (some first) e = some first

abbrev pub resources_of : Node → List (String × String)
resources_of n =
    ("services", tcp_name n.id)
    ∷ ("services", udp_name n.id)
    ∷ ("quotas", quota_name n.id)
    ∷ ("limiters", limiter_name n.id)
    ∷ ("climiters", climiter_name n.id)
    ∷ []

remove_pool : Node → Option Pool → Option Pool
remove_pool n none = none
remove_pool n (some pool) = some (Singbox.remove n.id pool)

abbrev cred_of : Node → RealityCred
cred_of n = record {
  uuid = n.reality_uuid;
  private_key = n.reality_priv;
  public_key = n.reality_pub;
  short_id = n.reality_short_id;
  server_name = n.reality_sni;
  ip_mode = n.reality_ip_mode;
}

find_node : String → List Node → Option Node
find_node id [] = none
find_node id (n ∷ ns) = let rest = find_node id ns in if n.id == id then some n else rest

module _ (gost : Gost) where
  unfoldable pub upsert_all : String → List Resource → Call gost
  upsert_all kind [] = nothing gost
  upsert_all kind (r ∷ rs) = ◌>>◌ gost (upsert gost kind r) (upsert_all kind rs)

  -- A kind of limits of the node: what it has, or else its name is deleted, if that can be done.
  unfoldable pub apply_limits : String → List Resource → String → Call gost
  unfolding upsert_all
  apply_limits kind rs name =
      ◌>>◌ gost (upsert_all kind rs)
        (if is_empty rs then ignored gost (delete gost kind name) else nothing gost)

  -- Names of services that are not expected are deleted.
  unfoldable pub clear : List Service → List String → Call gost
  clear ss [] = nothing gost
  clear ss (name ∷ names) =
      ◌>>◌ gost (if expects ss name then nothing gost else delete gost "services" name)
        (clear ss names)

  unfoldable pub apply_services : Node → List Service → Call gost
  unfolding upsert_all clear
  apply_services n ss =
      let mine = tcp_name n.id ∷ udp_name n.id ∷ [] in
      if not n.enabled
      then clear [] mine
      else ◌>>◌ gost (upsert_all "services" (map service ss)) (clear ss mine)

  -- `ApplyNode` as far as gost is asked.
  unfoldable pub apply_gost : Config → Node → Call gost
  unfolding apply_limits apply_services
  apply_gost cfg n = ◌>>◌ gost (apply_limits "quotas" (map quota cfg.quotas) (quota_name n.id)) (
      ◌>>◌ gost (apply_limits "limiters" (map limiter cfg.limiters) (limiter_name n.id)) (
        ◌>>◌ gost (apply_limits "climiters" (map limiter cfg.climiters) (climiter_name n.id))
          (apply_services n cfg.services)))

module _ (bolt : Bolt) (gost : Gost) where
  pub record Panel : Type 0 where
    pub store : Store bolt
    pub gost_state : gost.State
    -- gost's configuration file, and the outcomes of the next calls that write it
    pub file : Option Config
    pub writes : List Bool
    -- the cached nodes
    pub nodes : List Node
    -- `SB`, which may be nil
    pub pool : Option Pool

  abbrev pub Act : Type 0
  Act = Panel → Panel × Option Failure

  unfoldable pub load_nodes : Act
  load_nodes p = elim (list_nodes bolt p.store) [
    | ok ns ↦ (record p { nodes = ns }, none)
    | err e ↦ (p, some (store e))
  ]

  unfoldable pub node : String → Panel → Option Node
  unfolding find_node
  node id p = find_node id p.nodes

  -- `WriteConfig`
  write_file : Config → List Bool → Panel → Panel × Option Failure
  write_file cfg [] p = (record p { file = some cfg }, none)
  write_file cfg (true ∷ rest) p = (record p { file = some cfg; writes = rest }, none)
  write_file cfg (false ∷ rest) p = (record p { writes = rest }, some unwritten)

  write_listed : Windows → BuildOptions → Result (List Node) → Act
  unfolding write_file
  write_listed w opts (ok ns) p = write_file (build_config w opts ns) p.writes p
  write_listed w opts (err e) p = (p, some (store e))

  unfoldable pub sync_config_file : Windows → BuildOptions → Act
  unfolding write_listed
  sync_config_file w opts p = write_listed w opts (list_nodes bolt p.store) p

  apply_pool : Node → Option Pool → Panel → Panel × Option Failure
  apply_pool n none p = (p, some no_engine)
  apply_pool n (some pool) p =
      let (pool', done) = Singbox.apply n.id n.listen_port (cred_of n) n.enabled pool in
      (record p { pool = some pool' }, if done then none else some pool_error)

  unfoldable pub apply_reality : Node → Act
  unfolding apply_pool
  apply_reality n p = apply_pool n p.pool p

  applied : Windows → BuildOptions → Option ApiError → Act
  unfolding sync_config_file
  applied w opts none p = sync_config_file w opts p
  applied w opts (some e) p = (p, some (api e))

  unfoldable pub apply_node : Windows → BuildOptions → Node → Act
  unfolding apply_gost apply_reality applied
  apply_node w opts n p =
      let (g, e) = apply_gost gost (build_config w opts (n ∷ [])) n p.gost_state in
      if is_reality n then apply_reality n p else applied w opts e (record p { gost_state = g })

  -- The five calls of gost in `RemoveNode`, with the first error.
  delete_all : List (String × String) → gost.State → gost.State × Option Failure
  unfolding api_failure
  delete_all [] s = (s, none)
  delete_all ((kind, name) ∷ rest) s =
      let (s', e) = delete gost kind name s in
      let (s'', e') = delete_all rest s' in (s'', keep (api_failure e) e')

  unfoldable pub remove_node : Windows → BuildOptions → Node → Act
  unfolding delete_all remove_pool sync_config_file
  remove_node w opts n p =
      let (g, first) = delete_all (resources_of n) p.gost_state in
      let (p', e) = sync_config_file w opts (record p { gost_state = g }) in
      if is_reality n then (record p { pool = remove_pool n p.pool }, none) else (p', keep first e)

  sync_each : List Node → Panel → Panel
  unfolding apply_reality
  sync_each [] p = p
  sync_each (n ∷ ns) p = sync_each ns (if is_reality n then (apply_reality n p).0 else p)

  -- `syncReality`: errors are only logged.
  unfoldable pub sync_reality : Panel → Panel
  unfolding sync_each
  sync_reality p = sync_each p.nodes p
