-- ===== src/Client/Names.antt =====
-- A std::unordered_map keyed by texts, as an association list.
pub mod Laws
use rubetek_ios_cpp_releases.Prelude.{
  ℕ, Bool, true, false, ◌&&◌, List, [], ◌∷◌, Option, none, some, ◌==◌, if◌then◌else◌,
}

abbrev pub Text : Type 0
Text = List ℕ

-- ==
unfoldable pub is_same : Text → Text → Bool
is_same [] [] = true
is_same [] (b ∷ bs) = false
is_same (x ∷ xs) [] = false
is_same (x ∷ xs) (b ∷ bs) = x == b && is_same xs bs

abbrev pub Names : Type 0 → Type 0
Names V = List (Text × V)

module _ {V : Type 0} where
  -- find
  abbrev pub lookup : Text → Names V → Option V
  lookup k [] = none
  lookup k ((j, v) ∷ t) = if is_same k j then some v else lookup k t

  -- A new value for a key that the map has.
  abbrev pub update : Text → V → Names V → Names V
  update k v [] = []
  update k v ((j, w) ∷ t) = if is_same k j then (k, v) ∷ t else (j, w) ∷ update k v t

  abbrev pub erase : Text → Names V → Names V
  erase k [] = []
  erase k (e ∷ t) = if is_same k e.0 then t else e ∷ erase k t

  -- operator[], then an assignment.
  abbrev pub assign_at : Option V → Text → V → Names V → Names V
  assign_at none k v t = (k, v) ∷ t
  assign_at (some w) k v t = update k v t

  abbrev pub assign : Text → V → Names V → Names V
  assign k v t = assign_at (lookup k t) k v t
