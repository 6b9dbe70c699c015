-- ===== src/Client/Action.antt =====
-- A call that changes a state and calls others: the state after it, what it has called, in order,
-- and what it ends in. State and calls stay when it ends in an exception.
pub mod Keeps
use rubetek_ios_cpp_releases.Prelude.{List, [], ◌∷◌, ◌++◌, Bool, if◌then◌else◌}

-- `dangling` is the use of an iterator whose element has been erased.
pub data Result (A : Type 0) : Type 0 where
  returned : A → Result A
  thrown dangling : Result A

abbrev pub Action : Type 0 → Type 0 → Type 0 → Type 0
Action S E A = S → S × List E × Result A

module _ {S E : Type 0} where
  abbrev pub pure : {A : Type 0} → A → Action S E A
  pure a s = (s, [], returned a)

  abbrev pub throw : {A : Type 0} → Action S E A
  throw s = (s, [], thrown)

  abbrev pub get : Action S E S
  get s = (s, [], returned s)

  abbrev pub modify : (S → S) → Action S E (Unit {0})
  modify f s = (f s, [], returned tt)

  abbrev pub emit : E → Action S E (Unit {0})
  emit e s = (s, e ∷ [], returned tt)

  abbrev pub follow :
      {A B : Type 0} → S → List E → Result A → (A → Action S E B) → S × List E × Result B
  follow s es (returned a) f = let (s', es', r) = f a s in (s', es ++ es', r)
  follow s es thrown f = (s, es, thrown)
  follow s es dangling f = (s, es, dangling)

  infixl 5 ◌>>=◌ ◌>>◌
  abbrev pub ◌>>=◌ : {A B : Type 0} → Action S E A → (A → Action S E B) → Action S E B
  ◌>>=◌ m f s = let (s', es, r) = m s in follow s' es r f

  abbrev pub ◌>>◌ : {A B : Type 0} → Action S E A → Action S E B → Action S E B
  m >> k = m >>= λ _. k

  abbrev pub when : Bool → Action S E (Unit {0}) → Action S E (Unit {0})
  when b m s = if b then m s else (s, [], returned tt)

  abbrev pub unless : Bool → Action S E (Unit {0}) → Action S E (Unit {0})
  unless b m s = if b then (s, [], returned tt) else m s
