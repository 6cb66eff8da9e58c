-- ===== src/Singbox/Tests.antt =====
-- A pool in which a node is switched off, and a supervisor that is told to stop.
use gost_webui.Prelude.{
  ℕ, List, none, ◌≤◌, String, arith, string_eq, ◌≡◌, ◌≢◌, refl, true, false, [], ◌∷◌,
}
use gost_webui.Prelude.Int.{pos}
use gost_webui.Prelude.Maps.{lookup}
use gost_webui.Singbox.{
  RealityCred, Pool, Instance, apply, api_port_for, build_instance_config, instance_or_idle,
}
use gost_webui.Singbox.Supervisor.{
  Supervised, Event, stops, other, Run, launch, registered, checked, start_failed, stopped, begin,
  next, register, check, fail_start, stop_process, gone, closed,
}
use gost_webui.Singbox.Supervisor.Runs.{
  waits_since_start, doubled, stops_in, starts_in, about_to_start,
}
use gost_webui.Singbox.Supervisor.Promises.{CanStart, supervise_lem}
use gost_webui.Singbox.Instances.{IsSettled, AllWatched, apply_lem}

abbrev cred : RealityCred
cred = record {
  uuid = "u";
  private_key = "k";
  public_key = "p";
  short_id = "s";
  server_name = "example.com";
  ip_mode = "auto";
}

abbrev up : Instance
up = record { supervised = true; process = true }

abbrev one : Pool
one = record {
  inst = ("a", up) ∷ [];
  files = ("a", build_instance_config "a" (pos 443) cred (api_port_for "a")) ∷ [];
  disk = [];
}

one-AllWatched : AllWatched one
unfolding lookup
one-AllWatched id = ground arith

apply_lem_example :
    let r = apply "a" (pos 443) cred false one in
    ((j : String) → j ≢ "a" → lookup j r.0.inst ≡ lookup j one.inst)
    × (r.1 ≡ true → IsSettled false (instance_or_idle (lookup "a" r.0.inst)))
apply_lem_example = apply_lem "a" (pos 443) cred false one one-AllWatched

-- A supervisor whose first start fails, and that is told to stop while it waits.
abbrev halted : Supervised
halted = stopped (start_failed "no such file" (checked (registered (launch "" none))))

abbrev history : List Event
history = stops ∷ other ∷ other ∷ other ∷ []

told : Run (launch "" none) history halted
told =
    next
      (next (next (next begin (register refl)) (check refl))
        (fail_start "no such file" (unfold checked in refl)))
      stop_process

supervise_lem_example :
    (halted.backoff ≡ doubled (waits_since_start history))
    × (stops_in history ≡ 0 → (halted.place ≢ gone) × ((pid : ℕ) → CanStart pid halted))
    × (halted.stop ≡ closed
        → (later : List Event) (t : Supervised) → Run halted later t
        → starts_in later ≤ about_to_start halted.place)
supervise_lem_example = supervise_lem "" none history halted told
