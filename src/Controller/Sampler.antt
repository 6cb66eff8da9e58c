-- ===== src/Controller/Sampler.antt =====
-- internal/controller/sampler.go: one round of traffic sampling. What gost and sing-box answer, and the
-- clock, are arguments; calls of sing-box are recorded in order.
pub mod Totals
pub mod Quotas
pub mod Falls
pub mod Reality
mod Tests
use gost_webui.Prelude.{
  ℕ, ◌+◌, ◌-◌, ◌%◌, String, Bool, true, false, not, ◌&&◌, ◌||◌, Option, none, some, List, [], ◌∷◌,
  ◌++◌, ltb, leb, ◌==◌, nat_eq, string_eq, if◌then◌else◌,
}
use gost_webui.Prelude.Int.{ℤ, pos, negsuc, positive, pos_part, int_eq}
use gost_webui.Prelude.Maps.{Map, lookup, insert}
use gost_webui.Model.{Node, Point, Live, is_reality, service_names, quota_name, zero_live}
use gost_webui.Bolt.{Bolt}
use gost_webui.Store.{Store, save_node}
use gost_webui.Store.Bytes.{u64_mod}
use gost_webui.Store.Hours.{add_traffic, range_traffic}

pub record Counters : Type 0 where
  pub inb : ℕ
  pub outb : ℕ

-- What gost reports of a service.
pub record Stats : Type 0 where
  pub total_conns : ℕ
  pub current_conns : ℕ
  pub total_errs : ℕ
  pub input_bytes : ℕ
  pub output_bytes : ℕ

pub record Status : Type 0 where
  pub state : String
  pub stats : Option Stats

pub record Service : Type 0 where
  pub name : String
  pub status : Option Status

-- What gost reports of a quota.
pub record QuotaStatus : Type 0 where
  pub used : ℕ
  pub limit : ℕ
  pub starts_at : ℕ
  pub expires_at : ℕ
  pub active : Bool
  pub expired : Bool
  pub blocked : Bool

pub record Quota : Type 0 where
  pub name : String
  pub status : Option QuotaStatus

pub record Item : Type 0 where
  pub inb : ℕ
  pub outb : ℕ
  pub cur_conns : ℕ
  pub total_conns : ℕ
  pub errs : ℕ
  pub state : String

abbrev zero_item : Item
zero_item = record { inb = 0; outb = 0; cur_conns = 0; total_conns = 0; errs = 0; state = "" }

item_of_stats : String → Option Stats → Item
item_of_stats state none = record zero_item { state = state }
item_of_stats state (some st) = record {
  inb = st.input_bytes;
  outb = st.output_bytes;
  cur_conns = st.current_conns;
  total_conns = st.total_conns;
  errs = st.total_errs;
  state = state;
}

item_of : Option Status → Item
unfolding item_of_stats
item_of none = zero_item
item_of (some s) = item_of_stats s.state s.stats

-- `byName`; the list holds no nil.
by_name_from : Map String Item → List Service → Map String Item
by_name_from m [] = m
by_name_from m (s ∷ ss) = by_name_from (insert s.name (item_of s.status) m) ss

unfoldable pub by_name : List Service → Map String Item
unfolding by_name_from item_of
by_name = by_name_from []

quota_status_from : Map String QuotaStatus → List Quota → Map String QuotaStatus
quota_status_from m [] = m
quota_status_from m (q ∷ qs) = elim q.status [
  | none ↦ quota_status_from m qs
  | some st ↦ quota_status_from (insert q.name st m) qs
]

unfoldable pub quota_status : List Quota → Map String QuotaStatus
unfolding quota_status_from
quota_status = quota_status_from []

-- Unsigned addition of 64 bits.
abbrev pub add64 : ℕ → ℕ → ℕ
add64 a b = (a + b) % u64_mod

-- A counter that falls belongs to an engine that was started again.
unfoldable pub delta : ℕ → ℕ → ℕ
delta prev cur = if leb prev cur then cur - prev else 0

pub record Sums : Type 0 where
  pub item : Item
  pub running : Bool

add_item : Item → Sums → Sums
add_item i s = record {
  item = record {
    inb = add64 s.item.inb i.inb;
    outb = add64 s.item.outb i.outb;
    cur_conns = add64 s.item.cur_conns i.cur_conns;
    total_conns = add64 s.item.total_conns i.total_conns;
    errs = add64 s.item.errs i.errs;
    state = i.state;
  };
  running = true;
}

sum_services : Map String Item → List String → Sums → Sums
unfolding add_item
sum_services m [] s = s
sum_services m (name ∷ names) s = elim (lookup name m) [
  | none ↦ sum_services m names s
  | some i ↦ sum_services m names (add_item i s)
]

unfoldable pub node_sums : Map String Item → Node → Sums
unfolding sum_services
node_sums m n = sum_services m (service_names n) (record { item = zero_item; running = false })

abbrev pub counters_or : Counters → Option Counters → Counters
counters_or c none = c
counters_or c (some d) = d

-- What is remembered of the last sample, or what the node keeps of it across a restart of the panel.
abbrev pub baseline : Map String Counters → Node → Counters
baseline last n =
    counters_or (record { inb = n.counter_in; outb = n.counter_out }) (lookup n.id last)

abbrev pub is_some {ℓ} : {A : Type ℓ} → Option A → Bool
is_some none = false
is_some (some a) = true

-- A node's live state from the sums of its services, and from its quota if gost has one.
live_of : Sums → Live
live_of s = record zero_live {
  current_conns = s.item.cur_conns;
  total_conns = s.item.total_conns;
  total_errs = s.item.errs;
  running = s.running && not (s.item.state == "closed") && not (s.item.state == "failed");
  service_state = s.item.state;
}

with_quota : Option QuotaStatus → Live → Live
with_quota none lv = lv
with_quota (some q) lv = record lv {
  quota_used = q.used;
  quota_limit = q.limit;
  quota_blocked = q.blocked;
  quota_expired = q.expired;
  quota_active = q.active;
  quota_until = q.expires_at;
}

-- A call of the sing-box pool: apply a node's configuration, enabled or not.
pub data EngineCall : Type 0 where
  apply : String → Bool → EngineCall

-- The node's totals and the engine's counters after a sample.
unfoldable pub advance : ℕ → ℕ → Counters → ℤ → Node → Node
advance d_in d_out cur pid n = record n {
  total_in = add64 n.total_in d_in;
  total_out = add64 n.total_out d_out;
  counter_in = cur.inb;
  counter_out = cur.outb;
  counter_pid = pid;
}

module _ (bolt : Bolt) where
  pub record Sampler : Type 0 where
    pub store : Store bolt
    -- `lastCounters`
    pub last : Map String Counters
    pub live : Map String Live
    pub engine : List EngineCall

  -- The node and the hour's traffic with a sample's increments: written if there are any, or if this
  -- is the node's first sample since the panel started.
  unfoldable pub record_sample :
      ℕ → Counters → Counters → Bool → ℤ → Node → Sampler → Node × Sampler
  unfolding delta advance
  record_sample hour prev cur seen pid n s =
      let d_in = delta prev.inb cur.inb in
      let d_out = delta prev.outb cur.outb in
      let s' = record s { last = insert n.id cur s.last } in
      let n' = advance d_in d_out cur pid n in
      let st = (save_node bolt n' (add_traffic bolt n.id hour d_in d_out s.store).0).0 in
      if ltb 0 d_in || ltb 0 d_out || not seen then (n', record s' { store = st }) else (n, s')

  -- One round of the loop over gost's nodes.
  unfoldable pub sample_node :
      Map String Item → Map String QuotaStatus → ℕ → Node → Sampler → Node × Sampler
  unfolding node_sums record_sample live_of with_quota
  sample_node items quotas hour n s =
      let sums = node_sums items n in
      let cur : Counters = record { inb = sums.item.inb; outb = sums.item.outb } in
      let (n', s') =
        record_sample hour (baseline s.last n) cur (is_some (lookup n.id s.last)) n.counter_pid n
          s in
      let lv = with_quota (lookup (quota_name n.id) quotas) (live_of sums) in
      (n', record s' { live = insert n.id lv s'.live })

  -- The cached nodes are updated in place.
  unfoldable pub sample_nodes :
      Map String Item → Map String QuotaStatus → ℕ → List Node → Sampler → List Node × Sampler
  unfolding sample_node
  sample_nodes items quotas hour [] s = ([], s)
  sample_nodes items quotas hour (n ∷ ns) s =
      let (n', s') = if is_reality n then (n, s) else sample_node items quotas hour n s in
      let (ns', s'') = sample_nodes items quotas hour ns s' in (n' ∷ ns', s'')
