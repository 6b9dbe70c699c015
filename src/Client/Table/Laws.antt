-- ===== src/Client/Table/Laws.antt =====
-- What the operations of a table leave in it.
use rubetek_ios_cpp_releases.Prelude.{ℕ, ◌≡◌, ◌≢◌, refl, [], ◌∷◌, none, some, All, arith}
use rubetek_ios_cpp_releases.Client.Table.{Table, lookup, update, erase, insert}

module _ {V : Type 0} where
  abbrev pub Values : (V → Type 0) → Table V → Type 0
  Values P t = All (λ e. P e.1) t

  pub lookup-update_self :
      (k : ℕ) (v w : V) (t : Table V) → lookup k t ≡ some w → lookup k (update k v t) ≡ some v
  lookup-update_self k v w [] h = cc
  lookup-update_self k v w (e ∷ t) h = ground (arith, lookup-update_self k v w t)

  pub lookup-update_ne :
      (j k : ℕ) (v : V) (t : Table V) → j ≢ k → lookup j (update k v t) ≡ lookup j t
  lookup-update_ne j k v [] h = refl
  lookup-update_ne j k v (e ∷ t) h = ground (arith, lookup-update_ne j k v t h)

  pub lookup-erase_ne : (j k : ℕ) (t : Table V) → j ≢ k → lookup j (erase k t) ≡ lookup j t
  lookup-erase_ne j k [] h = refl
  lookup-erase_ne j k (e ∷ t) h = ground (arith, lookup-erase_ne j k t h)

  pub lookup-insert_old :
      (j k : ℕ) (v w : V) (t : Table V) → lookup j t ≡ some w → lookup j (insert k v t) ≡ some w
  lookup-insert_old j k v w t h = ground arith

  pub lookup-Values :
      (P : V → Type 0) (k : ℕ) (v : V) (t : Table V) → Values P t → lookup k t ≡ some v → P v
  lookup-Values P k v [] h e = cc
  lookup-Values P k v (x ∷ t) h e = ground (arith, lookup-Values P k v t h.1)

  pub update-Values :
      (P : V → Type 0) (k : ℕ) (v : V) (t : Table V) → Values P t → P v → Values P (update k v t)
  update-Values P k v [] h p = tt
  update-Values P k v (x ∷ t) h p = ground (arith, update-Values P k v t h.1 p)

  pub erase-Values : (P : V → Type 0) (k : ℕ) (t : Table V) → Values P t → Values P (erase k t)
  erase-Values P k [] h = tt
  erase-Values P k (x ∷ t) h = ground (arith, erase-Values P k t h.1)

  pub insert-Values :
      (P : V → Type 0) (k : ℕ) (v : V) (t : Table V) → Values P t → P v → Values P (insert k v t)
  insert-Values P k v t h p = ground arith

  -- No key stands twice.
  abbrev pub IsUnique : Table V → Type 0
  IsUnique [] = Unit {0}
  IsUnique ((k, v) ∷ t) = (lookup k t ≡ none) × IsUnique t

  pub update-IsUnique : (k : ℕ) (v : V) (t : Table V) → IsUnique t → IsUnique (update k v t)
  update-IsUnique k v [] h = tt
  update-IsUnique k v (x ∷ t) h =
      ground (arith, update-IsUnique k v t h.1, lookup-update_ne x.0 k v t)

  pub insert-IsUnique : (k : ℕ) (v : V) (t : Table V) → IsUnique t → IsUnique (insert k v t)
  insert-IsUnique k v t h = ground arith

  pub erase-IsUnique : (k : ℕ) (t : Table V) → IsUnique t → IsUnique (erase k t)
  erase-IsUnique k [] h = tt
  erase-IsUnique k (x ∷ t) h = ground (arith, erase-IsUnique k t h.1, lookup-erase_ne x.0 k t)

  pub lookup-erase_self : (k : ℕ) (t : Table V) → IsUnique t → lookup k (erase k t) ≡ none
  lookup-erase_self k [] h = refl
  lookup-erase_self k (x ∷ t) h = ground (arith, lookup-erase_self k t h.1)
