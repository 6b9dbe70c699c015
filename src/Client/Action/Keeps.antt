-- ===== src/Client/Action/Keeps.antt =====
-- What a call leaves true of the state, whatever it ends in.
use rubetek_ios_cpp_releases.Prelude.{List, Bool, true, false}
use rubetek_ios_cpp_releases.Client.Action.{
  Result, returned, thrown, dangling, Action, follow, ◌>>=◌, when, unless,
}

module _ {S E : Type 0} (P : S → Type 0) where
  abbrev pub Keeps : {A : Type 0} → Action S E A → Type 0
  Keeps m = (s : S) → P s → P (m s).0

  pub Keeps-follow :
      {A B : Type 0} (s : S) (es : List E) (r : Result A) (f : A → Action S E B)
      → P s
      → ((a : A) → Keeps (f a))
      → P (follow s es r f).0
  Keeps-follow s es (returned a) f p k = k a s p
  Keeps-follow s es thrown f p k = p
  Keeps-follow s es dangling f p k = p

  pub Keeps-bind :
      {A B : Type 0} (m : Action S E A) (f : A → Action S E B)
      → Keeps m
      → ((a : A) → Keeps (f a))
      → Keeps (m >>= f)
  Keeps-bind m f hm hf s p = Keeps-follow (m s).0 (m s).1 (m s).2 f (hm s p) hf

  pub Keeps-when : (b : Bool) (m : Action S E (Unit {0})) → Keeps m → Keeps (when b m)
  Keeps-when true m h s p = h s p
  Keeps-when false m h s p = p

  pub Keeps-unless : (b : Bool) (m : Action S E (Unit {0})) → Keeps m → Keeps (unless b m)
  Keeps-unless true m h s p = p
  Keeps-unless false m h s p = h s p
