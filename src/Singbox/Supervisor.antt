-- ===== src/Singbox/Supervisor.antt =====
-- internal/singbox/singbox.go: `supervise`, the goroutine that keeps the process of one instance running, with
-- the fields of the instance that it uses and `stopProcess` as they meet it. One supervisor, alone with its
-- instance; a process is its pid, and times are seconds.
pub mod Promises
pub mod Runs
use gost_webui.Prelude.{
  ℕ, ◌*◌, String, Bool, true, false, Option, none, some, List, [], ◌∷◌, ◌≡◌, ◌==◌, ltb, nat_eq,
  if◌then◌else◌,
}

-- Where the supervisor is: before it has made its channel; at the check that begins a round; before
-- `cmd.Start`; at `cmd.Wait`; at the check after it; at a `select` between the wait and the channel; returned.
pub data Place : Type 0 where
  launched checking starting ended waiting gone : Place
  running : ℕ → Place

-- The channel that it waits on.
pub data Stop : Type 0 where
  unmade made closed : Stop

pub record Supervised : Type 0 where
  pub place : Place
  pub backoff : ℕ
  pub stop : Stop
  pub cmd : Option ℕ
  pub ready : Bool
  pub last_err : String
  -- the file sb.pid
  pub pid_file : Option ℕ

-- The supervisor of an instance whose process was stopped.
abbrev pub launch : String → Option ℕ → Supervised
launch last_err pid_file = record {
  place = launched;
  backoff = 1;
  stop = unmade;
  cmd = none;
  ready = false;
  last_err = last_err;
  pid_file = pid_file;
}

abbrev pub is_closed : Stop → Bool
is_closed closed = true
is_closed _ = false

-- `i.stop = stop`
abbrev pub registered : Supervised → Supervised
registered s = record s { place = checking; stop = made }

unfoldable pub checked : Supervised → Supervised
checked s = record s { place = if is_closed s.stop then gone else starting }

-- `cmd.Start` fails.
abbrev pub start_failed : String → Supervised → Supervised
start_failed e s = record s { place = waiting; last_err = e }

-- `cmd.Start` succeeds.
unfoldable pub process_started : ℕ → Supervised → Supervised
process_started pid s = record s {
  place = running pid;
  cmd = some pid;
  pid_file = some pid;
  backoff = 1;
}

abbrev is_cmd : ℕ → Option ℕ → Bool
is_cmd pid none = false
is_cmd pid (some other) = other == pid

abbrev noted : Option String → String → String
noted none old = old
noted (some e) old = e

-- `cmd.Wait` returns.
unfoldable pub process_exited : ℕ → Option String → Supervised → Supervised
process_exited pid e s =
    let mine = is_cmd pid s.cmd in
    record s {
      place = ended;
      cmd = if mine then none else s.cmd;
      ready = if mine then false else s.ready;
      last_err = noted e s.last_err;
    }

unfoldable pub checked_again : Supervised → Supervised
checked_again s = record s { place = if is_closed s.stop then gone else waiting }

-- The wait is over.
unfoldable pub woken : Supervised → Supervised
woken s = record s {
  place = checking;
  backoff = if ltb s.backoff 30 then s.backoff * 2 else s.backoff;
}

abbrev close : Stop → Stop
close made = closed
close other = other

-- `stopProcess` of the instance.
unfoldable pub stopped : Supervised → Supervised
stopped s = record s { stop = close s.stop; cmd = none; ready = false }

-- What is seen of a step: a process that starts, a wait that ends, a call of `stopProcess`, or none of these.
pub data Event : Type 0 where
  starts : ℕ → Event
  waited stops other : Event

pub data Step (s : Supervised) : Event → Supervised → Type 0 where
  register : s.place ≡ launched → Step s other (registered s)
  check : s.place ≡ checking → Step s other (checked s)
  fail_start : (e : String) → s.place ≡ starting → Step s other (start_failed e s)
  start : (pid : ℕ) → s.place ≡ starting → Step s (starts pid) (process_started pid s)
  exit :
      (pid : ℕ) (e : Option String) → s.place ≡ running pid → Step s other (process_exited pid e s)
  check_again : s.place ≡ ended → Step s other (checked_again s)
  wake : s.place ≡ waiting → Step s waited (woken s)
  leave : s.place ≡ waiting → s.stop ≡ closed → Step s other (record s { place = gone })
  stop_process : Step s stops (stopped s)

-- Steps, with their events, the last one first.
pub data Run (s : Supervised) : List Event → Supervised → Type 0 where
  begin : Run s [] s
  next :
      {es : List Event} {t : Supervised} {e : Event} {u : Supervised}
      → Run s es t
      → Step t e u
      → Run s (e ∷ es) u
