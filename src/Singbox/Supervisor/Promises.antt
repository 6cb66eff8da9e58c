-- ===== src/Singbox/Supervisor/Promises.antt =====
-- What a supervisor promises: how long it waits, that it goes on, and that it can be stopped.
use gost_webui.Prelude.{
  ℕ, ◌+◌, ◌≤◌, ◌≡◌, ◌≢◌, refl, String, false, Option, none, List, [], ◌∷◌, arith,
}
use gost_webui.Singbox.Supervisor.{
  Place, launched, checking, starting, ended, waiting, gone, running, closed, Supervised, launch,
  is_closed, checked, checked_again, woken, process_exited, process_started, registered, Event,
  starts, waited, stops, other, Step, register, check, start, exit, check_again, wake, Run, begin,
  next,
}
use gost_webui.Singbox.Supervisor.Runs.{
  waits_since_start, doubled, starts_in, stops_in, about_to_start, IsKept, Run-backoff, Run-IsKept,
  Run-IsTold, Run-starts,
}

-- Steps without a call of `stopProcess` lead to where the process `pid` runs.
abbrev pub CanStart : ℕ → Supervised → Type 0
CanStart pid s =
    (later : List Event) × (t : Supervised) × Run s later t
    × (stops_in later ≡ 0)
    × (t.place ≡ running pid)

stops_in-cons : (e : Event) (es : List Event) → stops_in (e ∷ es) ≡ stops_in (e ∷ []) + stops_in es
stops_in-cons (starts pid) es = omega arith
stops_in-cons waited es = omega arith
stops_in-cons stops es = omega arith
stops_in-cons other es = omega arith

prepend :
    {s : Supervised} {e : Event} {t : Supervised} {es : List Event} {u : Supervised}
    → Step s e t
    → Run t es u
    → (later : List Event) × Run s later u × (stops_in later ≡ stops_in (e ∷ es))
prepend {e} st begin = (e ∷ [], next begin st, refl)
prepend {e} st (next {es} {e = e'} r st') =
    let (later, r', same) = prepend st r in
    (
      e' ∷ later,
      next r' st',
      omega (
        arith,
        same,
        stops_in-cons e' later,
        stops_in-cons e es,
        stops_in-cons e (e' ∷ es),
        stops_in-cons e' es,
      ),
    )

ahead :
    (pid : ℕ) {s : Supervised} {e : Event} {t : Supervised}
    → Step s e t
    → stops_in (e ∷ []) ≡ 0
    → CanStart pid t
    → CanStart pid s
ahead pid {e} st free (later, t, r, none_then, up) =
    let (later', r', same) = prepend st r in
    (later', t, r', omega (arith, same, stops_in-cons e later), up)

module _ (pid : ℕ) (s : Supervised) where
  starting-CanStart : s.place ≡ starting → CanStart pid s
  unfolding process_started
  starting-CanStart at =
      (starts pid ∷ [], process_started pid s, next begin (start pid at), refl, refl)

from_check :
    (pid : ℕ) (s : Supervised) → is_closed s.stop ≡ false → s.place ≡ checking → CanStart pid s
from_check pid s kept at =
    ahead pid (check at) refl (starting-CanStart pid (checked s) (unfold checked in rw kept refl))

from_wait :
    (pid : ℕ) (s : Supervised) → is_closed s.stop ≡ false → s.place ≡ waiting → CanStart pid s
from_wait pid s kept at =
    ahead pid (wake at) refl
      (from_check pid (woken s) (unfold woken in kept) (unfold woken in refl))

from_end : (pid : ℕ) (s : Supervised) → is_closed s.stop ≡ false → s.place ≡ ended → CanStart pid s
from_end pid s kept at = ahead pid (check_again at) refl (
    from_wait pid (checked_again s) (unfold checked_again in kept)
      (unfold checked_again in rw kept refl))

IsKept-CanStart : (pid : ℕ) (s : Supervised) (p : Place) → s.place ≡ p → IsKept s → CanStart pid s
IsKept-CanStart pid s launched at h =
    ahead pid (register at) refl (from_check pid (registered s) refl refl)
IsKept-CanStart pid s checking at h = from_check pid s h.0 at
IsKept-CanStart pid s starting at h = starting-CanStart pid s at
IsKept-CanStart pid s ended at h = from_end pid s h.0 at
IsKept-CanStart pid s waiting at h = from_wait pid s h.0 at
IsKept-CanStart pid s gone at h = absurd (h.1 at)
IsKept-CanStart pid s (running now) at h = ahead pid (exit now none at) refl (
    from_end pid (process_exited now none s) (unfold process_exited in h.0)
      (unfold process_exited in refl))

-- In every state that a supervisor reaches, its wait is one second, doubled for each wait since the last start
-- of a process up to 32 seconds; as long as nobody has called `stopProcess` it has not returned, and steps
-- without such a call lead to the start of a process; and once its channel is closed it starts no process any
-- more, except one if it was past its check.
pub supervise_lem :
    (err : String) (file : Option ℕ) (es : List Event) (s : Supervised)
    → Run (launch err file) es s
    → (s.backoff ≡ doubled (waits_since_start es))
      × (stops_in es ≡ 0 → (s.place ≢ gone) × ((pid : ℕ) → CanStart pid s))
      × (s.stop ≡ closed
          → (later : List Event) (t : Supervised) → Run s later t
          → starts_in later ≤ about_to_start s.place)
supervise_lem err file es s r = (
  Run-backoff r,
  λ kept. let h = Run-IsKept r kept in (h.1, λ pid. IsKept-CanStart pid s s.place refl h),
  λ told later t r'. let (_, few) = Run-starts r' (Run-IsTold r told) in omega arith,
)
