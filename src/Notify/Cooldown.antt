-- ===== src/Notify/Cooldown.antt =====
-- How often `Send` posts a notice on one subject.
use gost_webui.Prelude.{
  ℕ, ◌-◌, ◌*◌, ◌<◌, String, ◌≡◌, ◌≢◌, sym, ◌++◌, refl, true, false, arith, eq_iff, ◌==◌, string_eq,
}
use mathlib.Core.Path.{subst}
use gost_webui.Prelude.Maps.{lookup, insert, lookup-insert_self}
use gost_webui.Server.Guard.{second}
use gost_webui.Notify.{
  Notice, Notifier, event_enabled, cooldown_key, is_recent, split_from, posts_to, send,
}

-- What a notice that is due leaves.
posted : ℕ → String → String → Notice → Notifier → Notifier
unfolding split_from posts_to
posted now event key notice n = record n {
  last = insert (cooldown_key event key) now n.last;
  outbox = n.outbox ++ posts_to notice (split_from "" n.cfg.chat_id);
}

send_due :
    (now : ℕ) (event key : String) (notice : Notice) (n : Notifier)
    → (key == "") ≡ false
    → event_enabled event n.cfg ≡ true
    → is_recent now n.cfg.cooldown (lookup (cooldown_key event key) n.last) ≡ false
    → send now event key notice n ≡ posted now event key notice n
unfolding send posted
send_due now event key notice n named enabled due = rw (enabled, named, due) refl

send_early :
    (now : ℕ) (event key : String) (notice : Notice) (n : Notifier)
    → (key == "") ≡ false
    → event_enabled event n.cfg ≡ true
    → is_recent now n.cfg.cooldown (lookup (cooldown_key event key) n.last) ≡ true
    → send now event key notice n ≡ n
unfolding send
send_early now event key notice n named enabled early = rw (enabled, named, early) refl

-- Once a notice on a subject is posted, any further one with that event and key is dropped as long as
-- the cooldown lasts, and changes nothing; the subject has a key.
pub send_again :
    (now later : ℕ) (event key : String) (notice notice' : Notice) (n : Notifier)
    → key ≢ ""
    → event_enabled event n.cfg ≡ true
    → is_recent now n.cfg.cooldown (lookup (cooldown_key event key) n.last) ≡ false
    → later - now < n.cfg.cooldown * second
    → let n' = send now event key notice n in send later event key notice' n' ≡ n'
unfolding posted
send_again now later event key notice notice' n named enabled due within =
    let some_key : (key == "") ≡ false = ground (arith, named, eq_iff key "") in
    let n' = posted now event key notice n in
    let again : is_recent later n.cfg.cooldown (lookup (cooldown_key event key) n'.last) ≡ true =
      rw (lookup-insert_self (cooldown_key event key) now n.last)
        (unfold is_recent in ground arith) in
    subst (λ x. send later event key notice' x ≡ x)
      (sym (send_due now event key notice n some_key enabled due))
      (send_early later event key notice' n' some_key enabled again)
