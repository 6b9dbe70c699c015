-- ===== src/Client/Unit/Removal.antt =====
-- The timer of the unit: which controllers it removes (idle and try_remove of
-- rubetek/client/controller/impl/unit.cpp).
use rubetek_ios_cpp_releases.Prelude.{
  ℕ, ◌≡◌, refl, sym, ◌∙◌, ◌⊎◌, inl, inr, true, List, [], ◌∷◌, Option, none, some, Bool-cases, ◌==◌,
  ==_iff, arith,
}
use rubetek_ios_cpp_releases.Client.Action.{Result, returned, thrown, dangling, follow}
use rubetek_ios_cpp_releases.Client.Action.Keeps.{Keeps, Keeps-follow}
use rubetek_ios_cpp_releases.Client.Table.{lookup, erase}
use rubetek_ios_cpp_releases.Client.Table.Laws.{erase-IsUnique, erase-Values, lookup-erase_ne}
use rubetek_ios_cpp_releases.Client.Controller.{Controller, offline, is_in}
use rubetek_ios_cpp_releases.Client.Controller.Links.{Linked, Up}
use rubetek_ios_cpp_releases.Client.Unit.{
  ControllersUnit, Event, UnitCall, try_remove, try_remove_at, try_remove_all, clear_removal, idle,
}
use rubetek_ios_cpp_releases.Client.Unit.Invariant.{Inv, same_value}

-- The invariant without what may be removed.
abbrev pub Cleared : ControllersUnit → Type 0
Cleared u = Inv (record u { potentially_removal = [] })

erase-Cleared :
    (id : ℕ) (c : Controller) (u : ControllersUnit)
    → lookup id u.controllers ≡ some c
    → is_in offline c ≡ true
    → Cleared u
    → Cleared (record u { controllers = erase id u.controllers })
erase-Cleared id c u e off inv = record {
  unique = erase-IsUnique id u.controllers inv.unique;
  linked = erase-Values Linked id u.controllers inv.linked;
  active_up = λ a act.
      let (d, ld, up) = inv.active_up a act in
      elim (Bool-cases (a == id)) [
        | inl same ↦
            let eq : d ≡ c = same_value c d (sym e ∙ rw (sym ((==_iff a id).0 same)) ld) in
            let up' : Up 2 c = rw (sym eq) up in absurd (ground (arith, up'.1, off))
        | inr other ↦ (d, lookup-erase_ne a id u.controllers (ground (arith, other)) ∙ ld, up)
      ];
  present = tt;
}

try_remove_at-Cleared :
    (id : ℕ) (u : ControllersUnit) (o : Option Controller)
    → lookup id u.controllers ≡ o
    → Cleared u
    → Cleared (try_remove_at id o u).0
unfolding try_remove_at
try_remove_at-Cleared id u none e inv = inv
try_remove_at-Cleared id u (some c) e inv = elim (Bool-cases (is_in offline c)) [
  | inl off ↦ elim (Bool-cases c.known) [
    | inl known ↦ rw (off, known) inv
    | inr unknown ↦ rw (off, unknown) (erase-Cleared id c u e off inv)
  ]
  | inr on ↦ rw on inv
]

try_remove_all-Cleared : (ids : List ℕ) → Keeps Cleared (try_remove_all ids)
unfolding try_remove_all try_remove
try_remove_all-Cleared [] u inv = inv
try_remove_all-Cleared (id ∷ ids) u inv =
    Keeps-follow Cleared (try_remove id u).0 (try_remove id u).1 (try_remove id u).2
      (λ _. try_remove_all ids) (try_remove_at-Cleared id u (lookup id u.controllers) refl inv)
      (λ _. try_remove_all-Cleared ids)

-- A call of the timer ends, or uses an iterator that is dangling.
abbrev pub Ends : Result (Unit {0}) → Type 0
Ends r = (r ≡ returned tt) ⊎ (r ≡ dangling)

try_remove_at-Ends :
    (id : ℕ) (u : ControllersUnit) (o : Option Controller) → Ends (try_remove_at id o u).2
unfolding try_remove_at
try_remove_at-Ends id u none = inr refl
try_remove_at-Ends id u (some c) = ground arith

follow-Ends :
    (s : ControllersUnit) (es : List Event) (r : Result (Unit {0}))
    (f : Unit {0} → UnitCall (Unit {0}))
    → Ends r
    → ((a : Unit {0}) (t : ControllersUnit) → Ends (f a t).2)
    → Ends (follow s es r f).2
follow-Ends s es (returned a) f h k = k a s
follow-Ends s es thrown f h k = h
follow-Ends s es dangling f h k = h

try_remove_all-Ends : (ids : List ℕ) (u : ControllersUnit) → Ends (try_remove_all ids u).2
unfolding try_remove_all try_remove
try_remove_all-Ends [] u = inl refl
try_remove_all-Ends (id ∷ ids) u =
    follow-Ends (try_remove id u).0 (try_remove id u).1 (try_remove id u).2
      (λ _. try_remove_all ids) (try_remove_at-Ends id u (lookup id u.controllers))
      (λ _. try_remove_all-Ends ids)

follow-clear :
    (s : ControllersUnit) (es : List Event) (r : Result (Unit {0}))
    → Ends r
    → Cleared s
    → let end = follow s es r (λ _. clear_removal) in (end.2 ≡ dangling) ⊎ Inv end.0
unfolding clear_removal
follow-clear s es (returned _) h inv = inr inv
follow-clear s es thrown h inv = ground arith
follow-clear s es dangling h inv = inl refl

pub idle-Inv : (u : ControllersUnit) → Inv u → ((idle u).2 ≡ dangling) ⊎ Inv (idle u).0
unfolding idle
idle-Inv u inv =
    let swept = try_remove_all u.potentially_removal u in
    follow-clear swept.0 swept.1 swept.2 (try_remove_all-Ends u.potentially_removal u) (
      try_remove_all-Cleared u.potentially_removal u (record {
        unique = inv.unique;
        linked = inv.linked;
        active_up = inv.active_up;
        present = tt;
      }))
