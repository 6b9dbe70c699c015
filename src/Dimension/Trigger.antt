-- ===== src/Dimension/Trigger.antt =====
-- libnet/msw/dimension/trigger.hpp: a trigger is its `state_`.
use rubetek_ios_cpp_releases.Prelude.{Bool, false, not}

unfoldable pub set : Bool → Bool → Bool
set state t = state

unfoldable pub reset : Bool → Bool
reset t = false

unfoldable pub invert : Bool → Bool
invert t = not t

-- The move constructor: the new trigger has the state, and the old one is off.
unfoldable pub move : Bool → Bool × Bool
move other = (other, false)
