-- ===== src/Controller/Engine/Services.antt =====
-- The services that gost runs after a node was brought to it.
use gost_webui.Prelude.{
  String, ◌≡◌, refl, ◌∙◌, ap, Bool, true, false, not, ◌||◌, Option, none, some, List, [], ◌∷◌, map,
  ◌==◌, string_eq, eq_iff, Bool-cases, Option-cases, inl, inr, arith, if◌then◌else◌,
}
use gost_webui.Model.{Node, tcp_name, udp_name, quota_name, limiter_name, climiter_name}
use gost_webui.Gostmgr.Schema.{Service, Config}
use gost_webui.Gostmgr.Client.{
  Gost, Resource, service, quota, limiter, name_of, Call, nothing, ◌>>◌, ignored, upsert, delete,
}
use gost_webui.Gostmgr.Client.Effects.{upsert-others, upsert-done, delete-others, delete-done}
use gost_webui.Controller.Engine.{
  expects, upsert_all, apply_limits, clear, apply_services, apply_gost,
}

abbrev pub or_else : {A : Type 0} → Option A → Option A → Option A
or_else none o = o
or_else (some a) o = some a

-- The last resource of a name.
pub last_named : String → List Resource → Option Resource
last_named name [] = none
last_named name (r ∷ rs) = or_else (last_named name rs) (if name_of r == name then some r else none)

last_named_unexpected :
    (ss : List Service) (name : String)
    → expects ss name ≡ false
    → last_named name (map service ss) ≡ none
unfolding last_named
last_named_unexpected [] name h = refl
last_named_unexpected (s ∷ ss) name h = ground (arith, h, last_named_unexpected ss name)

last_named_expected :
    (ss : List Service) (name : String)
    → expects ss name ≡ true
    → (r : Resource) × (last_named name (map service ss) ≡ some r)
unfolding last_named
last_named_expected [] name h = cc
last_named_expected (s ∷ ss) name h = elim (Bool-cases (expects ss name)) [
  | inl later ↦ let (r, e) = last_named_expected ss name later in (r, rw e refl)
  | inr last ↦ (service s, ground (arith, h, last, last_named_unexpected ss name last))
]

-- What a name of a service stands for once a node's services are in place: the services given, and under
-- the node's names nothing else.
abbrev pub placed : Node → List Service → String → Option Resource → Option Resource
placed n ss name old =
    or_else (last_named name (map service ss))
      (if tcp_name n.id == name || udp_name n.id == name then none else old)

module _ (gost : Gost) where
  open gost use {State, view}

  -- A call that succeeds changes what the names of services stand for as `f` says.
  unfoldable pub Sets : Call gost → (String → Option Resource → Option Resource) → Type 0
  Sets m f =
      (s : State)
      → (m s).1 ≡ none
      → (name : String) → view (m s).0 "services" name ≡ f name (view s "services" name)

  nothing-Sets : Sets (nothing gost) (λ name old. old)
  unfolding Sets
  nothing-Sets s done name = refl

  >>-Sets :
      (m k : Call gost) (f g : String → Option Resource → Option Resource)
      → Sets m f
      → Sets k g
      → Sets (◌>>◌ gost m k) (λ name old. g name (f name old))
  unfolding Sets
  >>-Sets m k f g hm hk s done name = elim (Option-cases (m s).1) [
    | inl first ↦
        rw (first, ◌>>◌)
          (hk (m s).0 (ground (arith, first, done)) name ∙ ap (g name) (hm s first name))
    | inr (e, failed) ↦ absurd (ground (arith, failed, done))
  ]

  -- A call of another kind.
  upsert-Sets_other :
      (kind : String) (r : Resource)
      → (kind == "services") ≡ false
      → Sets (upsert gost kind r) (λ name old. old)
  unfolding Sets
  upsert-Sets_other kind r other s done name =
      upsert-others gost kind r s "services" name (rw other refl)

  ignored-Sets_other :
      (kind key : String)
      → (kind == "services") ≡ false
      → Sets (ignored gost (delete gost kind key)) (λ name old. old)
  unfolding Sets
  ignored-Sets_other kind key other s done name =
      delete-others gost kind key s "services" name (rw other refl)

  upsert-Sets :
      (r : Resource)
      → Sets (upsert gost "services" r) (λ name old. if name_of r == name then some r else old)
  unfolding Sets
  upsert-Sets r s done name = elim (Bool-cases (name_of r == name)) [
    | inl same ↦ rw (same, ← (eq_iff _ _).0 same) (upsert-done gost "services" r s done)
    | inr other ↦ rw other (upsert-others gost "services" r s "services" name other)
  ]

  delete-Sets :
      (key : String)
      → Sets (delete gost "services" key) (λ name old. if key == name then none else old)
  unfolding Sets
  delete-Sets key s done name = elim (Bool-cases (key == name)) [
    | inl same ↦ rw (same, ← (eq_iff _ _).0 same) (delete-done gost "services" key s done)
    | inr other ↦ rw other (delete-others gost "services" key s "services" name other)
  ]

  upsert_all-Sets_other :
      (kind : String) (rs : List Resource)
      → (kind == "services") ≡ false
      → Sets (upsert_all gost kind rs) (λ name old. old)
  unfolding upsert_all
  upsert_all-Sets_other kind [] other = nothing-Sets
  upsert_all-Sets_other kind (r ∷ rs) other =
      >>-Sets (upsert gost kind r) (upsert_all gost kind rs) (λ name old. old) (λ name old. old)
        (upsert-Sets_other kind r other) (upsert_all-Sets_other kind rs other)

  apply_limits-Sets :
      (kind : String) (rs : List Resource) (name : String)
      → (kind == "services") ≡ false
      → Sets (apply_limits gost kind rs name) (λ name old. old)
  unfolding apply_limits
  apply_limits-Sets kind [] name other =
      >>-Sets (nothing gost) (ignored gost (delete gost kind name)) (λ name old. old)
        (λ name old. old) nothing-Sets (ignored-Sets_other kind name other)
  apply_limits-Sets kind (r ∷ rs) name other =
      >>-Sets (upsert_all gost kind (r ∷ rs)) (nothing gost) (λ name old. old) (λ name old. old)
        (upsert_all-Sets_other kind (r ∷ rs) other) nothing-Sets

  upsert_all-Sets :
      (rs : List Resource)
      → Sets (upsert_all gost "services" rs) (λ name old. or_else (last_named name rs) old)
  unfolding upsert_all Sets last_named
  upsert_all-Sets [] s done name = refl
  upsert_all-Sets (r ∷ rs) s done name =
      >>-Sets (upsert gost "services" r) (upsert_all gost "services" rs)
        (λ name old. if name_of r == name then some r else old)
        (λ name old. or_else (last_named name rs) old) (upsert-Sets r) (upsert_all-Sets rs) s done
        name
      ∙ ground arith

  abbrev cleared : List Service → List String → String → Option Resource → Option Resource
  cleared ss [] name old = old
  cleared ss (x ∷ xs) name old =
      cleared ss xs name (if expects ss x then old else if x == name then none else old)

  clear_one-Sets :
      (ss : List Service) (x : String)
      → Sets
          (if expects ss x then nothing gost else delete gost "services" x)
          (λ name old. if expects ss x then old else if x == name then none else old)
  unfolding Sets
  clear_one-Sets ss x s done name = elim (Bool-cases (expects ss x)) [
    | inl kept ↦ rw kept refl
    | inr gone ↦ rw gone (delete-Sets x s (ground (arith, gone, done)) name)
  ]

  clear-Sets :
      (ss : List Service) (names : List String) → Sets (clear gost ss names) (cleared ss names)
  unfolding clear
  clear-Sets ss [] = nothing-Sets
  clear-Sets ss (x ∷ xs) =
      >>-Sets (if expects ss x then nothing gost else delete gost "services" x) (clear gost ss xs) _
        _ (clear_one-Sets ss x) (clear-Sets ss xs)

  -- The node's two names, with those that are expected left alone.
  placed-cleared :
      (n : Node) (ss : List Service) (name : String) (old : Option Resource)
      → cleared ss
          (tcp_name n.id ∷ udp_name n.id ∷ [])
          name
          (or_else (last_named name (map service ss)) old)
        ≡ placed n ss name old
  placed-cleared n ss name old = elim (Bool-cases (expects ss name)) [
    | inl kept ↦
        let (r, e) = last_named_expected ss name kept in
        rw e (ground (arith, kept, eq_iff (tcp_name n.id) name, eq_iff (udp_name n.id) name))
    | inr gone ↦
        rw (last_named_unexpected ss name gone)
          (ground (arith, gone, eq_iff (tcp_name n.id) name, eq_iff (udp_name n.id) name))
  ]

  Sets-ext :
      (m : Call gost) (f g : String → Option Resource → Option Resource)
      → Sets m f
      → ((name : String) (old : Option Resource) → f name old ≡ g name old)
      → Sets m g
  unfolding Sets
  Sets-ext m f g h e s done name = h s done name ∙ e name (view s "services" name)

  Sets-if :
      (b : Bool) (m k : Call gost) (f : String → Option Resource → Option Resource)
      → (b ≡ true → Sets m f)
      → (b ≡ false → Sets k f)
      → Sets (if b then m else k) f
  Sets-if true m k f hm hk = hm refl
  Sets-if false m k f hm hk = hk refl

  apply_services-Sets :
      (n : Node) (ss : List Service)
      → (n.enabled ≡ false → ss ≡ [])
      → Sets (apply_services gost n ss) (placed n ss)
  unfolding apply_services last_named
  apply_services-Sets n ss off =
      let mine = tcp_name n.id ∷ udp_name n.id ∷ [] in
      Sets-if (not n.enabled) (clear gost [] mine) _ _
        (λ disabled.
          rw (off (ground (arith, disabled)))
            (Sets-ext _ _ _ (clear-Sets [] mine) (placed-cleared n [])))
        (λ _.
          Sets-ext _ _ _
            (>>-Sets (upsert_all gost "services" (map service ss)) (clear gost ss mine) _ _
              (upsert_all-Sets (map service ss)) (clear-Sets ss mine))
            (placed-cleared n ss))

  pub apply_gost-Sets :
      (cfg : Config) (n : Node)
      → (n.enabled ≡ false → cfg.services ≡ [])
      → Sets (apply_gost gost cfg n) (placed n cfg.services)
  unfolding apply_gost
  apply_gost-Sets cfg n off =
      let same = λ (name : String) (old : Option Resource). old in
      >>-Sets (apply_limits gost "quotas" (map quota cfg.quotas) (quota_name n.id)) _ same _
        (apply_limits-Sets "quotas" _ _ refl)
        (>>-Sets (apply_limits gost "limiters" (map limiter cfg.limiters) (limiter_name n.id)) _
          same _ (apply_limits-Sets "limiters" _ _ refl)
          (>>-Sets (apply_limits gost "climiters" (map limiter cfg.climiters) (climiter_name n.id))
            _ same _ (apply_limits-Sets "climiters" _ _ refl)
            (apply_services-Sets n cfg.services off)))
