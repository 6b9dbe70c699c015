-- ===== src/Client/Names/Laws.antt =====
-- What the operations of a map leave in it.
use rubetek_ios_cpp_releases.Prelude.{◌≡◌, ◌≢◌, refl, [], ◌∷◌, Option, none, some, true, All, arith}
use mathlib.Core.Logic.{◌↔◌}
use rubetek_ios_cpp_releases.Client.Names.{
  Text, is_same, Names, lookup, update, erase, assign_at, assign,
}

pub is_same_iff : (a b : Text) → (is_same a b ≡ true) ↔ (a ≡ b)
unfolding is_same
is_same_iff [] [] = ground arith
is_same_iff [] (b ∷ bs) = ground arith
is_same_iff (x ∷ xs) [] = ground arith
is_same_iff (x ∷ xs) (b ∷ bs) = ground (arith, is_same_iff xs bs)

module _ {V : Type 0} where
  -- No key stands twice.
  abbrev pub IsUnique : Names V → Type 0
  IsUnique [] = Unit {0}
  IsUnique ((k, v) ∷ t) = (lookup k t ≡ none) × IsUnique t

  lookup-update_self :
      (k : Text) (v w : V) (t : Names V) → lookup k t ≡ some w → lookup k (update k v t) ≡ some v
  lookup-update_self k v w [] h = cc
  lookup-update_self k v w (e ∷ t) h =
      ground (arith, is_same_iff k e.0, is_same_iff k k, lookup-update_self k v w t)

  lookup-update_ne :
      (j k : Text) (v : V) (t : Names V) → j ≢ k → lookup j (update k v t) ≡ lookup j t
  lookup-update_ne j k v [] h = refl
  lookup-update_ne j k v (e ∷ t) h =
      ground
        (arith, is_same_iff k e.0, is_same_iff j e.0, is_same_iff j k, lookup-update_ne j k v t h)

  lookup-erase_ne : (j k : Text) (t : Names V) → j ≢ k → lookup j (erase k t) ≡ lookup j t
  lookup-erase_ne j k [] h = refl
  lookup-erase_ne j k (e ∷ t) h =
      ground (arith, is_same_iff k e.0, is_same_iff j e.0, is_same_iff j k, lookup-erase_ne j k t h)

  pub update-IsUnique : (k : Text) (v : V) (t : Names V) → IsUnique t → IsUnique (update k v t)
  update-IsUnique k v [] h = tt
  update-IsUnique k v (x ∷ t) h =
      ground (arith, is_same_iff k x.0, update-IsUnique k v t h.1, lookup-update_ne x.0 k v t)

  pub erase-IsUnique : (k : Text) (t : Names V) → IsUnique t → IsUnique (erase k t)
  erase-IsUnique k [] h = tt
  erase-IsUnique k (x ∷ t) h =
      ground (arith, is_same_iff k x.0, erase-IsUnique k t h.1, lookup-erase_ne x.0 k t)

  module _ (k : Text) (v : V) (t : Names V) where
    assign_at-IsUnique : (o : Option V) → lookup k t ≡ o → IsUnique t → IsUnique (assign_at o k v t)
    assign_at-IsUnique none e h = (e, h)
    assign_at-IsUnique (some w) e h = update-IsUnique k v t h

    pub assign-IsUnique : IsUnique t → IsUnique (assign k v t)
    assign-IsUnique = assign_at-IsUnique (lookup k t) refl

    lookup-assign_at_self : (o : Option V) → lookup k t ≡ o → lookup k (assign_at o k v t) ≡ some v
    lookup-assign_at_self none e = ground (arith, is_same_iff k k)
    lookup-assign_at_self (some w) e = lookup-update_self k v w t e

    pub lookup-assign_self : lookup k (assign k v t) ≡ some v
    lookup-assign_self = lookup-assign_at_self (lookup k t) refl

    lookup-assign_at_ne :
        (j : Text) (o : Option V) → j ≢ k → lookup j (assign_at o k v t) ≡ lookup j t
    lookup-assign_at_ne j none h = ground (arith, is_same_iff j k)
    lookup-assign_at_ne j (some w) h = lookup-update_ne j k v t h

    pub lookup-assign_ne : (j : Text) → j ≢ k → lookup j (assign k v t) ≡ lookup j t
    lookup-assign_ne j = lookup-assign_at_ne j (lookup k t)

  -- What holds of every entry.
  module _ (P : Text × V → Type 0) where
    pub lookup-All : (k : Text) (v : V) (t : Names V) → All P t → lookup k t ≡ some v → P (k, v)
    lookup-All k v [] h e = cc
    lookup-All k v (x ∷ t) h e = ground (arith, is_same_iff k x.0, lookup-All k v t h.1)

    pub update-All : (k : Text) (v : V) (t : Names V) → P (k, v) → All P t → All P (update k v t)
    update-All k v [] p h = tt
    update-All k v (x ∷ t) p h = ground (arith, update-All k v t p h.1)

    pub erase-All : (k : Text) (t : Names V) → All P t → All P (erase k t)
    erase-All k [] h = tt
    erase-All k (x ∷ t) h = ground (arith, erase-All k t h.1)

    assign_at-All :
        (o : Option V) (k : Text) (v : V) (t : Names V)
        → P (k, v)
        → All P t
        → All P (assign_at o k v t)
    assign_at-All none k v t p h = (p, h)
    assign_at-All (some w) k v t p h = update-All k v t p h

    pub assign-All : (k : Text) (v : V) (t : Names V) → P (k, v) → All P t → All P (assign k v t)
    assign-All k v t = assign_at-All (lookup k t) k v t
