-- ===== src/Client/Unit/Sweep.antt =====
-- Which controllers the timer removes, and when it uses an iterator that is dangling (idle and
-- try_remove of rubetek/client/controller/impl/unit.cpp).
use rubetek_ios_cpp_releases.Prelude.{
  ℕ, ◌≡◌, refl, ◌∙◌, inl, inr, Bool, true, false, not, ◌&&◌, ◌||◌, List, [], ◌∷◌, Option, none,
  some, Bool-cases, All, ◌==◌, ==_iff, if◌then◌else◌, arith,
}
use rubetek_ios_cpp_releases.Client.Action.{Result, returned, dangling}
use rubetek_ios_cpp_releases.Client.Table.{Table, lookup, erase}
use rubetek_ios_cpp_releases.Client.Table.Laws.{
  IsUnique, erase-IsUnique, lookup-erase_ne, lookup-erase_self,
}
use rubetek_ios_cpp_releases.Client.Controller.{Controller, offline, is_in}
use rubetek_ios_cpp_releases.Client.Packets.{Codes}
use rubetek_ios_cpp_releases.Client.Unit.{
  ControllersUnit, no_controllers, try_remove, try_remove_at, try_remove_all, clear_removal, idle,
}
use rubetek_ios_cpp_releases.Client.Unit.Invariant.{Has}
use rubetek_ios_cpp_releases.Client.Unit.Runs.{Input, run}
use rubetek_ios_cpp_releases.Client.Unit.Online.{run-Inv, no_controllers-Inv}

abbrev pub contains : ℕ → List ℕ → Bool
contains j [] = false
contains j (x ∷ xs) = j == x || contains j xs

abbrev pub IsDistinct : List ℕ → Type 0
IsDistinct [] = Unit {0}
IsDistinct (x ∷ xs) = (contains x xs ≡ false) × IsDistinct xs

-- What is left of a controller that may be removed: nothing, if it is offline and not known.
abbrev pub remains : Option Controller → Option Controller
remains none = none
remains (some c) = if is_in offline c && not c.known then none else some c

-- A table where just the controllers of `ids` that may go are gone.
abbrev pub IsSwept : List ℕ → Table Controller → Table Controller → Type 0
IsSwept ids t t' =
    (j : ℕ) → lookup j t' ≡ (if contains j ids then remains (lookup j t) else lookup j t)

abbrev IsStep : ℕ → ControllersUnit → ControllersUnit → Result (Unit {0}) → Type 0
IsStep id u v end =
    (end ≡ returned tt)
    × IsUnique v.controllers
    × (v.active_controller ≡ u.active_controller)
    × IsSwept (id ∷ []) u.controllers v.controllers

IsSwept-erase :
    (id : ℕ) (c : Controller) (t : Table Controller)
    → IsUnique t
    → lookup id t ≡ some c
    → (is_in offline c && not c.known) ≡ true
    → IsSwept (id ∷ []) t (erase id t)
IsSwept-erase id c t unique e goes j = elim (Bool-cases (j == id)) [
  | inl same ↦
      let eq : j ≡ id = (==_iff j id).0 same in
      rw (same, eq, e, goes) (lookup-erase_self id t unique)
  | inr other ↦ rw other (lookup-erase_ne j id t (ground (arith, other)))
]

IsSwept-same :
    (id : ℕ) (c : Controller) (t : Table Controller)
    → lookup id t ≡ some c
    → (is_in offline c && not c.known) ≡ false
    → IsSwept (id ∷ []) t t
IsSwept-same id c t e stays j = elim (Bool-cases (j == id)) [
  | inl same ↦ let eq : j ≡ id = (==_iff j id).0 same in rw (same, eq, e, stays) refl
  | inr other ↦ ground (arith, other)
]

try_remove_at-IsStep :
    (id : ℕ) (c : Controller) (u : ControllersUnit)
    → IsUnique u.controllers
    → lookup id u.controllers ≡ some c
    → let (v, _, end) = try_remove_at id (some c) u in IsStep id u v end
unfolding try_remove_at
try_remove_at-IsStep id c u unique e = elim (Bool-cases (is_in offline c && not c.known)) [
  | inl goes ↦ rw goes (
    refl,
    erase-IsUnique id u.controllers unique,
    refl,
    IsSwept-erase id c u.controllers unique e goes,
  )
  | inr stays ↦ rw stays (refl, unique, refl, IsSwept-same id c u.controllers e stays)
]

try_remove-IsStep :
    (id : ℕ) (u : ControllersUnit)
    → IsUnique u.controllers
    → Has id u.controllers
    → let (v, _, end) = try_remove id u in IsStep id u v end
unfolding try_remove
try_remove-IsStep id u unique (c, e) = rw e (try_remove_at-IsStep id c u unique e)

IsSwept-more :
    (id : ℕ) (ids : List ℕ) (t t' t'' : Table Controller)
    → contains id ids ≡ false
    → IsSwept (id ∷ []) t t'
    → IsSwept ids t' t''
    → IsSwept (id ∷ ids) t t''
IsSwept-more id ids t t' t'' h first rest j = elim (Bool-cases (j == id)) [
  | inl same ↦
      let eq : j ≡ id = (==_iff j id).0 same in
      let no : contains j ids ≡ false = rw eq h in ground (arith, rest j, first j, no, same)
  | inr other ↦ ground (arith, rest j, first j, other)
]

still_there :
    (id : ℕ) (ids : List ℕ) (t t' : Table Controller)
    → contains id ids ≡ false
    → IsSwept (id ∷ []) t t'
    → All (λ j. Has j t) ids
    → All (λ j. Has j t') ids
still_there id [] t t' h first has = tt
still_there id (j ∷ ids) t t' h first ((c, e), has) =
    ((c, ground (arith, first j, h, e)), still_there id ids t t' (ground (arith, h)) first has)

try_remove_all_lem :
    (ids : List ℕ) (u : ControllersUnit)
    → IsUnique u.controllers
    → All (λ id. Has id u.controllers) ids
    → IsDistinct ids
    → let (v, _, end) = try_remove_all ids u in
      (end ≡ returned tt)
      × (v.active_controller ≡ u.active_controller)
      × IsSwept ids u.controllers v.controllers
unfolding try_remove_all
try_remove_all_lem [] u unique has distinct = (refl, refl, λ j. refl)
try_remove_all_lem (id ∷ ids) u unique (h, has) (once, distinct) =
    let (end, unique', active, first) = try_remove-IsStep id u unique h in
    let v = (try_remove id u).0 in
    let (end', active', rest) =
      try_remove_all_lem ids v unique'
        (still_there id ids u.controllers v.controllers once first has) distinct in
    rw end
      (end', active' ∙ active, IsSwept-more id ids u.controllers v.controllers _ once first rest)

-- Whatever has happened before, as long as no dangling iterator was used: where no controller is
-- listed twice for removal, the timer removes just the listed ones that are offline and not known,
-- leaves all others as they were, and empties the list.
pub idle_lem :
    (codes : Codes) (is : List Input) (u : ControllersUnit)
    → run codes is no_controllers ≡ some u
    → IsDistinct u.potentially_removal
    → let (v, _, end) = idle u in
      (end ≡ returned tt)
      × (v.potentially_removal ≡ [])
      × (v.active_controller ≡ u.active_controller)
      × IsSwept u.potentially_removal u.controllers v.controllers
unfolding idle clear_removal
idle_lem codes is u e distinct =
    let inv = run-Inv codes is no_controllers u (no_controllers-Inv codes) e in
    let (end, active, swept) =
      try_remove_all_lem u.potentially_removal u inv.unique inv.present distinct in
    rw end (refl, refl, active, swept)

pub twice_lem :
    (id : ℕ) (c : Controller) (u : ControllersUnit)
    → IsUnique u.controllers
    → lookup id u.controllers ≡ some c
    → (is_in offline c && not c.known) ≡ true
    → (try_remove_all (id ∷ id ∷ []) u).2 ≡ dangling
unfolding try_remove_all try_remove try_remove_at
twice_lem id c u unique e goes = rw (e, goes, lookup-erase_self id u.controllers unique) refl
