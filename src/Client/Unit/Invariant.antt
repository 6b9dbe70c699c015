-- ===== src/Client/Unit/Invariant.antt =====
-- What holds of the controllers between two calls of the unit
-- (rubetek/client/controller/impl/unit.cpp).
use rubetek_ios_cpp_releases.Prelude.{
  ℕ, ◌≡◌, refl, sym, ◌∙◌, ap, ◌⊎◌, inl, inr, Bool, true, false, ◌&&◌, List, [], ◌∷◌, Option, none,
  some, Bool-cases, All, ◌==◌, ==_iff, if◌then◌else◌, arith,
}
use rubetek_ios_cpp_releases.Client.Action.{Result}
use rubetek_ios_cpp_releases.Client.Table.{Table, lookup, update}
use rubetek_ios_cpp_releases.Client.Table.Laws.{
  Values, IsUnique, update-IsUnique, lookup-update_self, lookup-update_ne, lookup-Values,
  update-Values,
}
use rubetek_ios_cpp_releases.Client.Controller.{Controller, Effect, Call}
use rubetek_ios_cpp_releases.Client.Controller.Links.{Linked, Up, IsGood, goes_offline}
use rubetek_ios_cpp_releases.Client.Unit.{ControllersUnit, is_active_id, settle, call_at, call_or}
use rubetek_ios_cpp_releases.Client.Unit.Dispatch.{after, settle_lem}

abbrev pub Has : ℕ → Table Controller → Type 0
Has id t = (c : Controller) × (lookup id t ≡ some c)

-- No controller stands twice. Each is offline just where it has no link; the active one is there, with a link, and
-- at standby at least; what may be removed is there.
pub record Inv (u : ControllersUnit) : Type 0 where
  pub unique : IsUnique u.controllers
  pub linked : Values Linked u.controllers
  pub active_up :
      (a : ℕ)
      → u.active_controller ≡ some a
      → (c : Controller) × (lookup a u.controllers ≡ some c) × Up 2 c
  pub present : All (λ id. Has id u.controllers) u.potentially_removal

-- A new state of a controller, with what it has called.
abbrev pub IsUpdate : Controller → Controller → List Effect → Type 0
IsUpdate old c es = Linked c × ((Up 2 old → Up 2 c) ⊎ (goes_offline es ≡ true))

pub All-map :
    {A : Type 0} {P Q : A → Type 0} (xs : List A) → ((x : A) → P x → Q x) → All P xs → All Q xs
All-map [] f h = tt
All-map (x ∷ xs) f (p, h) = (f x p, All-map xs f h)

update-Has :
    (j id : ℕ) (old c : Controller) (t : Table Controller)
    → lookup id t ≡ some old
    → Has j t
    → Has j (update id c t)
update-Has j id old c t e (d, h) = elim (Bool-cases (j == id)) [
  | inl same ↦ (c, rw ((==_iff j id).0 same) (lookup-update_self id c old t e))
  | inr other ↦ (d, lookup-update_ne j id c t (ground (arith, other)) ∙ h)
]

pub same_value : (c d : Controller) → some c ≡ some d → d ≡ c
same_value c d h = ap (λ o. elim o [ none ↦ c | some x ↦ x ]) (sym h)

active_after :
    (gone : Bool) (id a : ℕ) (o : Option ℕ)
    → (if gone && elim o [ none ↦ false | some b ↦ b == id ] then none else o) ≡ some a
    → (o ≡ some a) × (gone ≡ true → (a == id) ≡ false)
active_after gone id a none h = ground arith
active_after gone id a (some b) h = ground arith

active-Up :
    (id a : ℕ) (old c d : Controller) (es : List Effect) (t : Table Controller)
    → lookup id t ≡ some old
    → IsUpdate old c es
    → (goes_offline es ≡ true → (a == id) ≡ false)
    → lookup a t ≡ some d
    → Up 2 d
    → (f : Controller) × (lookup a (update id c t) ≡ some f) × Up 2 f
active-Up id a old c d es t e (linked, up) other ld hd = elim (Bool-cases (a == id)) [
  | inl same ↦
      let eq : a ≡ id = (==_iff a id).0 same in
      let old_up : Up 2 old = rw (same_value d old (sym ld ∙ rw eq e)) hd in
      elim up [
        | inl f ↦ (c, rw eq (lookup-update_self id c old t e), f old_up)
        | inr g ↦ absurd (ground (arith, same, other g))
      ]
  | inr differ ↦ (d, lookup-update_ne a id c t (ground (arith, differ)) ∙ ld, hd)
]

after-Inv :
    (id : ℕ) (old c : Controller) (es : List Effect) (u : ControllersUnit)
    → Inv u
    → lookup id u.controllers ≡ some old
    → IsUpdate old c es
    → Inv (after id es (record u { controllers = update id c u.controllers }))
unfolding after is_active_id
after-Inv id old c es u inv e (linked, up) = record {
  unique = update-IsUnique id c u.controllers inv.unique;
  linked = update-Values Linked id c u.controllers inv.linked linked;
  active_up = λ a act.
      let (was, other) = active_after (goes_offline es) id a u.active_controller act in
      let (d, ld, hd) = inv.active_up a was in
      active-Up id a old c d es u.controllers e (linked, up) other ld hd;
  present =
      All-map u.potentially_removal (λ j h. update-Has j id old c u.controllers e h) inv.present;
}

-- A call of a controller, whatever comes of it.
pub settle-Inv :
    {A : Type 0} (id : ℕ) (old c : Controller) (es : List Effect) (r : Result A)
    (u : ControllersUnit)
    → Inv u
    → lookup id u.controllers ≡ some old
    → IsUpdate old c es
    → Inv (settle id (c, es, r) u).0
settle-Inv id old c es r u inv e h =
    rw ((settle_lem id c es r u).0) (after-Inv id old c es u inv e h)

module _ {A : Type 0} (x : Result A) (id : ℕ) (m : Call A) (u : ControllersUnit) (good : IsGood m)
    (inv : Inv u) where
  call_at-Inv : (o : Option Controller) → lookup id u.controllers ≡ o → Inv (call_at x id m o u).0
  unfolding call_at
  call_at-Inv none e = inv
  call_at-Inv (some c) e =
      settle-Inv id c (m c).0 (m c).1 (m c).2 u inv e
        (good c (lookup-Values Linked id c u.controllers inv.linked e))

  pub call-Inv : Inv (call_or x id m u).0
  unfolding call_or
  call-Inv = call_at-Inv (lookup id u.controllers) refl
