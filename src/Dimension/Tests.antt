-- ===== src/Dimension/Tests.antt =====
-- The counter at the end of its range.
use rubetek_ios_cpp_releases.Prelude.{◌≡◌, refl}
use rubetek_ios_cpp_releases.Dimension.{increment}

wraps : increment 1 1 255 ≡ (0, 255)
unfolding increment
wraps = refl
