-- ===== src/Gostmgr/Client.antt =====
-- internal/gostmgr/client.go: the calls of gost's REST interface, over what gost does with a request.
pub mod Effects
pub mod Registry
use gost_webui.Prelude.{
  String, ◌≡◌, Bool, true, false, ◌&&◌, Option, none, some, List, ◌∷◌, ◌==◌, string_eq,
  if◌then◌else◌,
}
use gost_webui.Gostmgr.Schema.{Service, Quota, Limiter}

-- The body of a request.
pub data Resource : Type 0 where
  service : Service → Resource
  quota : Quota → Resource
  limiter : Limiter → Resource

abbrev pub name_of : Resource → String
name_of (service s) = s.name
name_of (quota q) = q.name
name_of (limiter l) = l.name

-- Whether an error's text contains "already exists" or "not found".
pub record ApiError : Type 0 where
  pub exists : Bool
  pub missing : Bool

-- gost's registry behind /config/KIND and /config/KIND/NAME. A call concerns its own name only. One
-- that reports no error has its effect, and a deletion that is refused since the name is not there
-- finds no name there; nothing else is known of a call that fails.
pub record Gost : Type 1 where
  pub State : Type 0
  pub view : State → String → String → Option Resource
  pub post : String → Resource → State → State × Option ApiError
  pub put : String → String → Resource → State → State × Option ApiError
  pub del : String → String → State → State × Option ApiError
  pub post_others :
      (kind : String) (r : Resource) (s : State) (k name : String)
      → (kind == k && name_of r == name) ≡ false
      → view (post kind r s).0 k name ≡ view s k name
  pub post_done :
      (kind : String) (r : Resource) (s : State)
      → (post kind r s).1 ≡ none
      → view (post kind r s).0 kind (name_of r) ≡ some r
  pub put_others :
      (kind key : String) (r : Resource) (s : State) (k name : String)
      → (kind == k && key == name) ≡ false
      → view (put kind key r s).0 k name ≡ view s k name
  pub put_done :
      (kind key : String) (r : Resource) (s : State)
      → (put kind key r s).1 ≡ none
      → view (put kind key r s).0 kind key ≡ some r
  pub del_others :
      (kind key : String) (s : State) (k name : String)
      → (kind == k && key == name) ≡ false
      → view (del kind key s).0 k name ≡ view s k name
  pub del_done :
      (kind key : String) (s : State)
      → (del kind key s).1 ≡ none
      → view (del kind key s).0 kind key ≡ none
  pub del_missing :
      (kind key : String) (s : State) (e : ApiError)
      → (del kind key s).1 ≡ some e
      → e.missing ≡ true
      → view (del kind key s).0 kind key ≡ none

module _ (gost : Gost) where
  open gost use {State, post, put, del}

  -- A request, with the error that is returned.
  abbrev pub Call : Type 0
  Call = State → State × Option ApiError

  abbrev pub nothing : Call
  nothing s = (s, none)

  -- The second request only if the first one reports no error.
  infixl 5 ◌>>◌
  abbrev pub ◌>>◌ : Call → Call → Call
  ◌>>◌ m k s = let (s', e) = m s in elim e [ none ↦ k s' | some x ↦ (s', some x) ]

  -- `_ = m`
  abbrev pub ignored : Call → Call
  ignored m s = ((m s).0, none)

  -- `CreateService`, and `UpdateService` where the name is taken; the same for quotas, and
  -- `UpsertLimiter`.
  unfoldable pub upsert : String → Resource → Call
  upsert kind r s =
      let (s', e) = post kind r s in
      elim e [
        | none ↦ (s', none)
        | some x ↦ if x.exists then put kind (name_of r) r s' else (s', some x)
      ]

  -- `DeleteService`, `DeleteQuota`, `DeleteLimiter`: what is not there is deleted.
  unfoldable pub delete : String → String → Call
  delete kind key s =
      let (s', e) = del kind key s in
      elim e [ none ↦ (s', none) | some x ↦ if x.missing then (s', none) else (s', some x) ]
