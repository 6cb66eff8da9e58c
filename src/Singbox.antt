-- ===== src/Singbox.antt =====
-- internal/singbox/singbox.go: the pool of sing-box processes, one for each REALITY node. A supervisor is in
-- place as soon as it is launched; what it does then is in Supervisor. What a file holds is the configuration
-- instead of its text.
pub mod Instances
pub mod Supervisor
mod Tests
use gost_webui.Prelude.{
  ℕ, ◌+◌, ◌*◌, ◌%◌, ◌^◌, String, Bool, true, false, not, ◌&&◌, ◌||◌, Option, none, some, List, [],
  ◌∷◌, ◌==◌, ltb, nat_eq, string_eq, if◌then◌else◌,
}
use gost_webui.Prelude.Int.{ℤ, int_eq}
use gost_webui.Prelude.Maps.{Map, lookup, insert, delete}
use gost_webui.Model.{ip_mode_listen}
use gost_webui.Model.Text.{codes, trim_space}

pub record RealityCred : Type 0 where
  pub uuid : String
  pub private_key : String
  pub public_key : String
  pub short_id : String
  pub server_name : String
  pub ip_mode : String

hash_from : ℕ → List ℕ → ℕ
hash_from h [] = h
hash_from h (c ∷ cs) = hash_from ((h * 131 + c) % 2 ^ 32) cs

-- The port of an instance's API on the loopback interface.
unfoldable pub api_port_for : String → ℕ
unfolding hash_from
api_port_for id = 19100 + hash_from 0 (codes id) % 800

-- What varies in an instance's configuration.
pub record InstanceConfig : Type 0 where
  pub api_port : ℕ
  pub tag : String
  pub listen : String
  pub listen_port : ℤ
  pub uuid : String
  pub server_name : String
  pub private_key : String
  pub short_id : String

unfoldable pub build_instance_config : String → ℤ → RealityCred → ℕ → InstanceConfig
build_instance_config id port c api_port = record {
  api_port = api_port;
  tag = id;
  listen = ip_mode_listen c.ip_mode;
  listen_port = port;
  uuid = c.uuid;
  server_name = c.server_name;
  private_key = c.private_key;
  short_id = c.short_id;
}

-- Two configurations have one text. (The API's port is a function of the tag.)
unfoldable pub same_config : InstanceConfig → InstanceConfig → Bool
same_config a b =
    a.tag == b.tag
    && a.listen == b.listen
    && a.listen_port == b.listen_port
    && a.uuid == b.uuid
    && a.server_name == b.server_name
    && a.private_key == b.private_key
    && a.short_id == b.short_id

-- A supervisor that was not told to stop, and a process.
pub record Instance : Type 0 where
  pub supervised : Bool
  pub process : Bool

-- `inst`, the files config.json by node, and the outcomes of the calls that make a directory, write a
-- file or rename one; those after the last one in the list succeed.
pub record Pool : Type 0 where
  pub inst : Map String Instance
  pub files : Map String InstanceConfig
  pub disk : List Bool

abbrev pub new_pool : Pool
new_pool = record { inst = []; files = []; disk = [] }

abbrev ask : List Bool → Bool × List Bool
ask [] = (true, [])
ask (outcome ∷ rest) = (outcome, rest)

abbrev pub idle : Instance
idle = record { supervised = false; process = false }

abbrev pub instance_or_idle : Option Instance → Instance
instance_or_idle none = idle
instance_or_idle (some i) = i

abbrev is_stale : InstanceConfig → Option InstanceConfig → Bool
is_stale cfg none = true
is_stale cfg (some old) = not (same_config old cfg)

-- `stopProcess` of the instance, if the pool has it.
unfoldable pub stop_process : Instance → Instance
stop_process i = record { supervised = false; process = false }

-- `restart`: the old process is stopped, and a new supervisor launched.
unfoldable pub restart : Instance → Instance
unfolding stop_process
restart i = record (stop_process i) { supervised = true }

-- The end of `Apply`, with the file in place.
unfoldable pub settle : Bool → Bool → Instance → Instance
unfolding stop_process restart
settle enabled changed i =
    if not enabled then stop_process i else if changed || not i.process then restart i else i

-- The pool, and whether there was no error. The instance is in the pool before the file is written.
unfoldable pub apply : String → ℤ → RealityCred → Bool → Pool → Pool × Bool
unfolding settle build_instance_config
apply id port cred enabled p =
    let cfg = build_instance_config id port cred (api_port_for id) in
    let i = instance_or_idle (lookup id p.inst) in
    let (made, disk) = ask p.disk in
    let (written, disk') = ask disk in
    let (renamed, disk'') = ask disk' in
    let known = insert id i p.inst in
    if not made
    then (record p { disk = disk }, false)
    else if not (is_stale cfg (lookup id p.files))
    then (record p { inst = insert id (settle enabled false i) p.inst; disk = disk }, true)
    else if not written
    then (record p { inst = known; disk = disk' }, false)
    else if not renamed
    then (record p { inst = known; disk = disk'' }, false)
    else (
      record {
        inst = insert id (settle enabled true i) p.inst;
        files = insert id cfg p.files;
        disk = disk'';
      },
      true,
    )

-- `Remove`: the directory goes with the instance, unless that fails.
unfoldable pub remove : String → Pool → Pool
remove id p =
    let (gone, disk) = ask p.disk in
    elim (lookup id p.inst) [
      | none ↦ p
      | some i ↦ record {
        inst = delete id p.inst;
        files = if gone then delete id p.files else p.files;
        disk = disk;
      }
    ]

-- `len` of a text: the bytes of its characters in UTF-8.
abbrev pub bytes_of : List ℕ → ℕ
bytes_of [] = 0
bytes_of (c ∷ cs) =
    (if ltb c 128 then 1 else if ltb c 2048 then 2 else if ltb c 65536 then 3 else 4) + bytes_of cs

abbrev among : ℕ → List ℕ → Bool
among c [] = false
among c (d ∷ ds) = c == d || among c ds

abbrev has_any : List ℕ → List ℕ → Bool
has_any chars [] = false
has_any chars (c ∷ cs) = among c chars || has_any chars cs

unfoldable pub valid_server_name : String → Bool
valid_server_name s =
    let cs = codes (trim_space s) in
    not (trim_space s == "") && not (ltb 253 (bytes_of cs)) && not (has_any (codes " \t:/@") cs)
