-- ===== src/Singbox/Instances.antt =====
-- What an instance of the pool is after each operation.
use gost_webui.Prelude.{
  beq_refl, eq_iff, ◌≤◌, ◌<◌, ◌≡◌, refl, String, Bool, true, false, some, ◌==◌, string_eq, arith,
  Bool-cases, ◌≢◌, inl, inr,
}
use gost_webui.Prelude.Int.{ℤ, int_eq}
use gost_webui.Prelude.Maps.{Map, lookup, insert, lookup-insert_self, lookup-insert}
use gost_webui.Singbox.{
  RealityCred, InstanceConfig, Instance, Pool, instance_or_idle, same_config, build_instance_config,
  api_port_for, settle, ask, is_stale, apply,
}

pub api_port_for_bounds : (id : String) → (19100 ≤ api_port_for id) × (api_port_for id < 19900)
unfolding api_port_for
api_port_for_bounds id = omega arith

-- A process that runs has a supervisor that was not told to stop.
abbrev pub IsWatched : Instance → Type 0
IsWatched i = i.process ≡ true → i.supervised ≡ true

abbrev pub AllWatched : Pool → Type 0
AllWatched p = (id : String) → IsWatched (instance_or_idle (lookup id p.inst))

settle-IsWatched :
    (enabled changed : Bool) (i : Instance) → IsWatched i → IsWatched (settle enabled changed i)
unfolding settle
settle-IsWatched enabled changed i h = ground arith

insert-AllWatched :
    (id : String) (i : Instance) (m : Map String Instance)
    → IsWatched i
    → ((j : String) → IsWatched (instance_or_idle (lookup j m)))
    → (j : String) → IsWatched (instance_or_idle (lookup j (insert id i m)))
insert-AllWatched id i m h all j =
    rw (lookup-insert id j i m)
      (elim (Bool-cases (id == j)) [ inl same ↦ rw same h | inr other ↦ rw other (all j) ])

-- What `Apply` without an error leaves of the node's instance.
abbrev pub IsSettled : Bool → Instance → Type 0
IsSettled enabled i = (i.supervised ≡ enabled) × (enabled ≡ false → i.process ≡ false)

settle-IsSettled :
    (enabled changed : Bool) (i : Instance)
    → IsWatched i
    → IsSettled enabled (settle enabled changed i)
unfolding settle
settle-IsSettled enabled changed i h = ground arith

-- What a call of `Apply` did to the instances.
data Applied (id : String) (enabled : Bool) (p : Pool) (r : Pool × Bool) : Type 0 where
  refused : r.1 ≡ false → r.0.inst ≡ p.inst → Applied id enabled p r
  entered :
      r.1 ≡ false
      → r.0.inst ≡ insert id (instance_or_idle (lookup id p.inst)) p.inst
      → Applied id enabled p r
  settled :
      (changed : Bool)
      → r.0.inst ≡ insert id (settle enabled changed (instance_or_idle (lookup id p.inst))) p.inst
      → Applied id enabled p r

apply-Applied :
    (id : String) (port : ℤ) (cred : RealityCred) (enabled : Bool) (p : Pool)
    → Applied id enabled p (apply id port cred enabled p)
unfolding apply
apply-Applied id port cred enabled p =
    let (made, disk) = ask p.disk in
    let (written, disk') = ask disk in
    let (renamed, disk'') = ask disk' in
    let cfg = build_instance_config id port cred (api_port_for id) in
    let stale = is_stale cfg (lookup id p.files) in
    elim (Bool-cases made) [
      | inr no_dir ↦ rw no_dir (refused refl refl)
      | inl dir ↦ elim (Bool-cases stale) [
        | inr same ↦ rw (dir, same) (settled false refl)
        | inl new ↦ elim (Bool-cases written) [
          | inr no_file ↦ rw (dir, new, no_file) (entered refl refl)
          | inl file ↦ elim (Bool-cases renamed) [
            | inr no_name ↦ rw (dir, new, file, no_name) (entered refl refl)
            | inl name ↦ rw (dir, new, file, name) (settled true refl)
          ]
        ]
      ]
    ]

Applied-AllWatched :
    (id : String) (enabled : Bool) (p : Pool) (r : Pool × Bool)
    → Applied id enabled p r
    → AllWatched p
    → AllWatched r.0
Applied-AllWatched id enabled p r (refused _ e) h = λ j. rw e (h j)
Applied-AllWatched id enabled p r (entered _ e) h =
    λ j. rw e (insert-AllWatched id _ p.inst (h id) h j)
Applied-AllWatched id enabled p r (settled changed e) h =
    λ j. rw e (insert-AllWatched id _ p.inst (settle-IsWatched enabled changed _ (h id)) h j)

pub apply-AllWatched :
    (id : String) (port : ℤ) (cred : RealityCred) (enabled : Bool) (p : Pool)
    → AllWatched p
    → AllWatched (apply id port cred enabled p).0
apply-AllWatched id port cred enabled p h =
    Applied-AllWatched id enabled p _ (apply-Applied id port cred enabled p) h

Applied-IsSettled :
    (id : String) (enabled : Bool) (p : Pool) (r : Pool × Bool)
    → Applied id enabled p r
    → AllWatched p
    → r.1 ≡ true
    → IsSettled enabled (instance_or_idle (lookup id r.0.inst))
Applied-IsSettled id enabled p r (refused failed e) h ok = absurd (ground (arith, failed, ok))
Applied-IsSettled id enabled p r (entered failed e) h ok = absurd (ground (arith, failed, ok))
Applied-IsSettled id enabled p r (settled changed e) h ok =
    let i = instance_or_idle (lookup id p.inst) in
    rw (e, lookup-insert_self id (settle enabled changed i) p.inst)
      (settle-IsSettled enabled changed i (h id))

Applied-others :
    (id : String) (enabled : Bool) (p : Pool) (r : Pool × Bool)
    → Applied id enabled p r
    → (j : String) → (id == j) ≡ false
    → lookup j r.0.inst ≡ lookup j p.inst
Applied-others id enabled p r (refused failed e) j other = rw e refl
Applied-others id enabled p r (entered failed e) j other = rw (e, lookup-insert, other) refl
Applied-others id enabled p r (settled changed e) j other = rw (e, lookup-insert, other) refl

-- `Apply` leaves the instances of all other nodes as they are; and where it reports no error, the node's
-- instance has a supervisor exactly if the node is enabled, and no process if it is not. Every process
-- has a supervisor before.
pub apply_lem :
    (id : String) (port : ℤ) (cred : RealityCred) (enabled : Bool) (p : Pool)
    → AllWatched p
    → let r = apply id port cred enabled p in
      ((j : String) → j ≢ id → lookup j r.0.inst ≡ lookup j p.inst)
      × (r.1 ≡ true → IsSettled enabled (instance_or_idle (lookup id r.0.inst)))
apply_lem id port cred enabled p h =
    let a = apply-Applied id port cred enabled p in
    (
      λ j other. Applied-others id enabled p _ a j (ground (arith, other, eq_iff id j)),
      λ ok. Applied-IsSettled id enabled p _ a h ok,
    )

-- A configuration has the text of itself.
same_config_refl : (a : InstanceConfig) → same_config a a ≡ true
unfolding same_config
same_config_refl a = simp beq_refl

settle_running : (i : Instance) → i.process ≡ true → settle true false i ≡ i
unfolding settle
settle_running i runs = ground (arith, runs)

-- When neither the configuration nor whether the node is enabled has changed, `Apply` does not restart the process.
pub apply_again :
    (id : String) (port : ℤ) (cred : RealityCred) (p : Pool) (i : Instance)
    → lookup id p.inst ≡ some i
    → i.process ≡ true
    → lookup id p.files ≡ some (build_instance_config id port cred (api_port_for id))
    → lookup id (apply id port cred true p).0.inst ≡ some i
unfolding apply
apply_again id port cred p i has runs file = elim (Bool-cases (ask p.disk).0) [
  | inr no_dir ↦ rw no_dir has
  | inl dir ↦
      rw
        (
          dir,
          file,
          has,
          same_config_refl (build_instance_config id port cred (api_port_for id)),
          settle_running i runs,
        )
        (lookup-insert_self id i p.inst)
]
