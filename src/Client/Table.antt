-- ===== src/Client/Table.antt =====
-- A std::unordered_map keyed by identifiers, as an association list.
pub mod Laws
use rubetek_ios_cpp_releases.Prelude.{ℕ, List, [], ◌∷◌, Option, none, some, ◌==◌, if◌then◌else◌}

abbrev pub Table : Type 0 → Type 0
Table V = List (ℕ × V)

module _ {V : Type 0} where
  -- find
  abbrev pub lookup : ℕ → Table V → Option V
  lookup k [] = none
  lookup k ((j, v) ∷ t) = if k == j then some v else lookup k t

  -- A new value for a key that the table has.
  abbrev pub update : ℕ → V → Table V → Table V
  update k v [] = []
  update k v ((j, w) ∷ t) = if k == j then (k, v) ∷ t else (j, w) ∷ update k v t

  abbrev pub erase : ℕ → Table V → Table V
  erase k [] = []
  erase k (e ∷ t) = if k == e.0 then t else e ∷ erase k t

  -- insert, which keeps a value that is there.
  abbrev pub insert : ℕ → V → Table V → Table V
  insert k v t = elim (lookup k t) [ none ↦ (k, v) ∷ t | some w ↦ t ]
