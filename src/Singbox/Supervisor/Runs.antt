-- ===== src/Singbox/Supervisor/Runs.antt =====
-- How long a supervisor waits, when it returns, and what it starts after it was told to stop.
use gost_webui.Prelude.{
  ℕ, zero, suc, ◌+◌, ◌*◌, ◌^◌, ◌≤◌, ◌≡◌, ◌≢◌, refl, sym, String, false, Option, List, [], ◌∷◌,
  arith, ltb, nat_eq, if◌then◌else◌, Bool-cases, inl, inr,
}
use gost_webui.Singbox.Supervisor.{
  Place, launched, starting, gone, unmade, closed, Supervised, launch, is_closed, checked,
  process_started, process_exited, checked_again, woken, stopped, Event, starts, waited, stops,
  other, Step, register, check, fail_start, start, exit, check_again, wake, leave, stop_process,
  Run, begin, next,
}

-- The waits since the last start of a process.
abbrev pub waits_since_start : List Event → ℕ
waits_since_start [] = 0
waits_since_start (starts pid ∷ es) = 0
waits_since_start (waited ∷ es) = suc (waits_since_start es)
waits_since_start (stops ∷ es) = waits_since_start es
waits_since_start (other ∷ es) = waits_since_start es

-- 1, 2, 4, 8, 16, and then always 32.
abbrev pub doubled : ℕ → ℕ
doubled n = if ltb n 5 then 2 ^ n else 32

doubled_late : (n : ℕ) → 5 ≤ n → doubled n ≡ 32
doubled_late n late = ground arith

doubled-suc : (n : ℕ) → doubled (suc n) ≡ (if ltb (doubled n) 30 then doubled n * 2 else doubled n)
doubled-suc zero = refl
doubled-suc (suc zero) = refl
doubled-suc (suc (suc zero)) = refl
doubled-suc (suc (suc (suc zero))) = refl
doubled-suc (suc (suc (suc (suc zero)))) = refl
doubled-suc (suc (suc (suc (suc (suc n))))) =
    let m = suc (suc (suc (suc (suc n)))) in
    rw (doubled_late m (omega arith), doubled_late (suc m) (omega arith)) refl

Step-backoff :
    (es : List Event) {s : Supervised} {e : Event} {t : Supervised}
    → Step s e t
    → s.backoff ≡ doubled (waits_since_start es)
    → t.backoff ≡ doubled (waits_since_start (e ∷ es))
unfolding checked process_started process_exited checked_again woken stopped
Step-backoff es (register at) h = h
Step-backoff es (check at) h = h
Step-backoff es (fail_start e at) h = h
Step-backoff es (start pid at) h = refl
Step-backoff es (exit pid e at) h = h
Step-backoff es (check_again at) h = h
Step-backoff es (wake at) h = rw h (sym (doubled-suc (waits_since_start es)))
Step-backoff es (leave at told) h = h
Step-backoff es stop_process h = h

pub Run-backoff :
    {err : String} {file : Option ℕ} {es : List Event} {s : Supervised}
    → Run (launch err file) es s
    → s.backoff ≡ doubled (waits_since_start es)
Run-backoff begin = refl
Run-backoff (next {es} r st) = Step-backoff es st (Run-backoff r)

abbrev pub starts_in : List Event → ℕ
starts_in [] = 0
starts_in (starts pid ∷ es) = suc (starts_in es)
starts_in (waited ∷ es) = starts_in es
starts_in (stops ∷ es) = starts_in es
starts_in (other ∷ es) = starts_in es

abbrev pub stops_in : List Event → ℕ
stops_in [] = 0
stops_in (starts pid ∷ es) = stops_in es
stops_in (waited ∷ es) = stops_in es
stops_in (stops ∷ es) = suc (stops_in es)
stops_in (other ∷ es) = stops_in es

stops_in-tail : (e : Event) (es : List Event) → stops_in (e ∷ es) ≡ 0 → stops_in es ≡ 0
stops_in-tail (starts pid) es h = h
stops_in-tail waited es h = h
stops_in-tail stops es h = absurd (omega arith)
stops_in-tail other es h = h

-- It was not told to stop, and has not returned.
abbrev pub IsKept : Supervised → Type 0
IsKept s = (is_closed s.stop ≡ false) × (s.place ≢ gone)

Step-IsKept :
    (es : List Event) {s : Supervised} {e : Event} {t : Supervised}
    → Step s e t
    → stops_in (e ∷ es) ≡ 0
    → IsKept s
    → IsKept t
unfolding checked process_started process_exited checked_again woken
Step-IsKept es (register at) none_yet h = (refl, λ q. cc)
Step-IsKept es (check at) none_yet h = (h.0, rw h.0 (λ q. cc))
Step-IsKept es (fail_start e at) none_yet h = (h.0, λ q. cc)
Step-IsKept es (start pid at) none_yet h = (h.0, λ q. cc)
Step-IsKept es (exit pid e at) none_yet h = (h.0, λ q. cc)
Step-IsKept es (check_again at) none_yet h = (h.0, rw h.0 (λ q. cc))
Step-IsKept es (wake at) none_yet h = (h.0, λ q. cc)
Step-IsKept es (leave at told) none_yet h = absurd (cc (rw told at h.0))
Step-IsKept es stop_process none_yet h = absurd (omega arith)

pub Run-IsKept :
    {err : String} {file : Option ℕ} {es : List Event} {s : Supervised}
    → Run (launch err file) es s
    → stops_in es ≡ 0
    → IsKept s
Run-IsKept begin h = (refl, λ q. cc)
Run-IsKept (next {es} {e} r st) h = Step-IsKept es st h (Run-IsKept r (stops_in-tail e es h))

-- 1 where the next step may start a process.
abbrev pub about_to_start : Place → ℕ
about_to_start starting = 1
about_to_start _ = 0

-- It was told to stop, and is past the start of the loop.
abbrev pub IsTold : Supervised → Type 0
IsTold s = (s.stop ≡ closed) × (s.place ≢ launched)

Step-IsTold : {s : Supervised} {e : Event} {t : Supervised} → Step s e t → IsTold s → IsTold t
unfolding checked process_started process_exited checked_again woken stopped
Step-IsTold (register at) h = absurd (h.1 at)
Step-IsTold (check at) h = (h.0, rw h.0 (λ q. cc))
Step-IsTold (fail_start e at) h = (h.0, λ q. cc)
Step-IsTold (start pid at) h = (h.0, λ q. cc)
Step-IsTold (exit pid e at) h = (h.0, λ q. cc)
Step-IsTold (check_again at) h = (h.0, rw h.0 (λ q. cc))
Step-IsTold (wake at) h = (h.0, λ q. cc)
Step-IsTold (leave at told) h = (h.0, λ q. cc)
Step-IsTold stop_process h = (rw h.0 refl, h.1)

-- Starts so far, with the one that may be next.
abbrev pub started_or_next : List Event → Supervised → ℕ
started_or_next es s = starts_in es + about_to_start s.place

Step-starts :
    (es : List Event) {s : Supervised} {e : Event} {t : Supervised}
    → Step s e t
    → IsTold s
    → started_or_next (e ∷ es) t ≤ started_or_next es s
unfolding checked process_started process_exited checked_again woken stopped
Step-starts es (register at) h = absurd (h.1 at)
Step-starts es (check at) h = rw h.0 (omega arith)
Step-starts es (fail_start e at) h = omega arith
Step-starts es (start pid at) h = rw at (omega arith)
Step-starts es (exit pid e at) h = omega arith
Step-starts es (check_again at) h = rw h.0 (omega arith)
Step-starts es (wake at) h = omega arith
Step-starts es (leave at told) h = omega arith
Step-starts es stop_process h = omega arith

pub Run-starts :
    {s : Supervised} {es : List Event} {t : Supervised}
    → Run s es t
    → IsTold s
    → IsTold t × (started_or_next es t ≤ about_to_start s.place)
Run-starts begin h = (h, omega arith)
Run-starts (next {es} r st) h =
    let (told, few) = Run-starts r h in
    let fewer = Step-starts es st told in (Step-IsTold st told, omega arith)

-- A supervisor that has not made its channel has not been told to stop.
abbrev IsEarly : Supervised → Type 0
IsEarly s = s.place ≡ launched → s.stop ≡ unmade

Step-IsEarly : {s : Supervised} {e : Event} {t : Supervised} → Step s e t → IsEarly s → IsEarly t
unfolding checked process_started process_exited checked_again woken stopped
Step-IsEarly (register at) h q = cc
Step-IsEarly {s} (check at) h q = elim (Bool-cases (is_closed s.stop)) [
  | inl told ↦ cc (rw told at q)
  | inr free ↦ cc (rw free at q)
]
Step-IsEarly (fail_start e at) h q = cc
Step-IsEarly (start pid at) h q = cc
Step-IsEarly (exit pid e at) h q = cc
Step-IsEarly {s} (check_again at) h q = elim (Bool-cases (is_closed s.stop)) [
  | inl told ↦ cc (rw told at q)
  | inr free ↦ cc (rw free at q)
]
Step-IsEarly (wake at) h q = cc
Step-IsEarly (leave at told) h q = cc
Step-IsEarly stop_process h q = rw (h q) refl

Run-IsEarly :
    {err : String} {file : Option ℕ} {es : List Event} {s : Supervised}
    → Run (launch err file) es s
    → IsEarly s
Run-IsEarly begin q = refl
Run-IsEarly (next r st) q = Step-IsEarly st (Run-IsEarly r) q

pub Run-IsTold :
    {err : String} {file : Option ℕ} {es : List Event} {s : Supervised}
    → Run (launch err file) es s
    → s.stop ≡ closed
    → IsTold s
Run-IsTold r told = (told, λ q. let early = Run-IsEarly r q in cc)
