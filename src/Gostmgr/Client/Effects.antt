-- ===== src/Gostmgr/Client/Effects.antt =====
-- What the names in gost's registry stand for after a call.
use gost_webui.Prelude.{
  String, ◌≡◌, ◌∙◌, Option-cases, false, ◌&&◌, none, some, ◌==◌, string_eq, Bool-cases, inl, inr,
  arith,
}
use gost_webui.Gostmgr.Client.{Resource, name_of, Gost, upsert, delete}

module _ (gost : Gost) where
  open gost use {
    State, view, post, put, del, post_others, post_done, put_others, put_done, del_others, del_done,
    del_missing,
  }

  -- Whatever comes of it, a call leaves the other names as they are.
  pub upsert-others :
      (kind : String) (r : Resource) (s : State) (k name : String)
      → (kind == k && name_of r == name) ≡ false
      → view (upsert gost kind r s).0 k name ≡ view s k name
  unfolding upsert
  upsert-others kind r s k name other = elim (Option-cases (post kind r s).1) [
    | inl posted ↦ rw (posted, upsert) (post_others kind r s k name other)
    | inr (e, refused) ↦ elim (Bool-cases e.exists) [
      | inr failed ↦ rw (refused, upsert, failed) (post_others kind r s k name other)
      | inl taken ↦
          rw (refused, upsert, taken)
            (put_others kind (name_of r) r (post kind r s).0 k name other
              ∙ post_others kind r s k name other)
    ]
  ]

  pub upsert-done :
      (kind : String) (r : Resource) (s : State)
      → (upsert gost kind r s).1 ≡ none
      → view (upsert gost kind r s).0 kind (name_of r) ≡ some r
  unfolding upsert
  upsert-done kind r s done = elim (Option-cases (post kind r s).1) [
    | inl posted ↦ rw (posted, upsert) (post_done kind r s posted)
    | inr (e, refused) ↦ elim (Bool-cases e.exists) [
      | inr failed ↦ absurd (ground (arith, refused, failed, done))
      | inl taken ↦
          rw (refused, upsert, taken)
            (put_done kind (name_of r) r (post kind r s).0 (ground (arith, refused, taken, done)))
    ]
  ]

  pub delete-others :
      (kind key : String) (s : State) (k name : String)
      → (kind == k && key == name) ≡ false
      → view (delete gost kind key s).0 k name ≡ view s k name
  unfolding delete
  delete-others kind key s k name other = elim (Option-cases (del kind key s).1) [
    | inl deleted ↦ rw (deleted, delete) (del_others kind key s k name other)
    | inr (e, refused) ↦ elim (Bool-cases e.missing) [
      | inr failed ↦ rw (refused, delete, failed) (del_others kind key s k name other)
      | inl missing ↦ rw (refused, delete, missing) (del_others kind key s k name other)
    ]
  ]

  pub delete-done :
      (kind key : String) (s : State)
      → (delete gost kind key s).1 ≡ none
      → view (delete gost kind key s).0 kind key ≡ none
  unfolding delete
  delete-done kind key s done = elim (Option-cases (del kind key s).1) [
    | inl deleted ↦ rw (deleted, delete) (del_done kind key s deleted)
    | inr (e, refused) ↦ elim (Bool-cases e.missing) [
      | inr failed ↦ absurd (ground (arith, refused, failed, done))
      | inl missing ↦ rw (refused, delete, missing) (del_missing kind key s e refused missing)
    ]
  ]
