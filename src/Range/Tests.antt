-- ===== src/Range/Tests.antt =====
-- Ranges on concrete items.
use rubetek_ios_cpp_releases.Prelude.{ℕ, ◌≡◌, refl, List, [], ◌∷◌}
use rubetek_ios_cpp_releases.Prelude.Outcome.{done, aborted}
use rubetek_ios_cpp_releases.Range.{from_to, from_count}

abbrev three : List ℕ
three = 1 ∷ 2 ∷ 3 ∷ []

from_to_inside : from_to 1 2 three ≡ done (2 ∷ [])
unfolding from_to
from_to_inside = refl

from_to_end : from_to 1 3 three ≡ aborted
unfolding from_to
from_to_end = refl

from_count_end : from_count 1 2 three ≡ done (2 ∷ 3 ∷ [])
unfolding from_count
from_count_end = refl
