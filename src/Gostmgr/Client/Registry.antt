-- ===== src/Gostmgr/Client/Registry.antt =====
-- A registry that never fails but where a name is taken or missing: an instance of the laws.
use gost_webui.Prelude.{
  String, ◌≡◌, refl, true, false, ◌&&◌, Option, none, some, ◌==◌, string_eq, beq_refl,
  if◌then◌else◌,
}
use gost_webui.Gostmgr.Client.{Resource, name_of, ApiError, Gost}

abbrev pub Names : Type 0
Names = String → String → Option Resource

abbrev pub taken : ApiError
taken = record { exists = true; missing = false }

abbrev pub absent : ApiError
absent = record { exists = false; missing = true }

abbrev pub set_name : String → String → Option Resource → Names → Names
set_name kind key r s k name = if kind == k && key == name then r else s k name

abbrev pub post_at : Option Resource → String → Resource → Names → Names × Option ApiError
post_at none kind r s = (set_name kind (name_of r) (some r) s, none)
post_at (some old) kind r s = (s, some taken)

abbrev pub put_at : Option Resource → String → String → Resource → Names → Names × Option ApiError
put_at none kind key r s = (s, some absent)
put_at (some old) kind key r s = (set_name kind key (some r) s, none)

abbrev pub del_at : Option Resource → String → String → Names → Names × Option ApiError
del_at none kind key s = (s, some absent)
del_at (some old) kind key s = (set_name kind key none s, none)

pub post_at_others :
    (o : Option Resource) (kind : String) (r : Resource) (s : Names) (k name : String)
    → (kind == k && name_of r == name) ≡ false
    → (post_at o kind r s).0 k name ≡ s k name
post_at_others none kind r s k name other = rw other refl
post_at_others (some old) kind r s k name other = refl

pub post_at_done :
    (o : Option Resource) (kind : String) (r : Resource) (s : Names)
    → (post_at o kind r s).1 ≡ none
    → (post_at o kind r s).0 kind (name_of r) ≡ some r
post_at_done none kind r s h = rw (beq_refl kind, beq_refl (name_of r)) refl
post_at_done (some old) kind r s h = cc

pub put_at_others :
    (o : Option Resource) (kind key : String) (r : Resource) (s : Names) (k name : String)
    → (kind == k && key == name) ≡ false
    → (put_at o kind key r s).0 k name ≡ s k name
put_at_others none kind key r s k name other = refl
put_at_others (some old) kind key r s k name other = rw other refl

pub put_at_done :
    (o : Option Resource) (kind key : String) (r : Resource) (s : Names)
    → (put_at o kind key r s).1 ≡ none
    → (put_at o kind key r s).0 kind key ≡ some r
put_at_done none kind key r s h = cc
put_at_done (some old) kind key r s h = rw (beq_refl kind, beq_refl key) refl

pub del_at_others :
    (o : Option Resource) (kind key : String) (s : Names) (k name : String)
    → (kind == k && key == name) ≡ false
    → (del_at o kind key s).0 k name ≡ s k name
del_at_others none kind key s k name other = refl
del_at_others (some old) kind key s k name other = rw other refl

pub del_at_done :
    (o : Option Resource) (kind key : String) (s : Names)
    → (del_at o kind key s).1 ≡ none
    → (del_at o kind key s).0 kind key ≡ none
del_at_done none kind key s h = cc
del_at_done (some old) kind key s h = rw (beq_refl kind, beq_refl key) refl

pub del_at_missing :
    (o : Option Resource) (kind key : String) (s : Names) (e : ApiError)
    → s kind key ≡ o
    → (del_at o kind key s).1 ≡ some e
    → (del_at o kind key s).0 kind key ≡ none
del_at_missing none kind key s e same h = same
del_at_missing (some old) kind key s e same h = cc

abbrev pub registry : Gost
registry = record {
  State = Names;
  view = λ s. s;
  post = λ kind r s. post_at (s kind (name_of r)) kind r s;
  put = λ kind key r s. put_at (s kind key) kind key r s;
  del = λ kind key s. del_at (s kind key) kind key s;
  post_others = λ kind r s k name h. post_at_others (s kind (name_of r)) kind r s k name h;
  post_done = λ kind r s h. post_at_done (s kind (name_of r)) kind r s h;
  put_others = λ kind key r s k name h. put_at_others (s kind key) kind key r s k name h;
  put_done = λ kind key r s h. put_at_done (s kind key) kind key r s h;
  del_others = λ kind key s k name h. del_at_others (s kind key) kind key s k name h;
  del_done = λ kind key s h. del_at_done (s kind key) kind key s h;
  del_missing = λ kind key s e h _. del_at_missing (s kind key) kind key s e refl h;
}

abbrev pub no_names : Names
no_names k name = none
