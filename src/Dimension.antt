-- ===== src/Dimension.antt =====
-- libnet/msw/dimension/counter.hpp. A counter over an unsigned type of `w` bytes
-- wraps; `step` is the template's Step.
pub mod Trigger
mod Tests
use rubetek_ios_cpp_releases.Prelude.{
  ==_iff, ℕ, ◌+◌, ◌-◌, ◌%◌, ◌^◌, ◌<◌, ◌≡◌, Bool, true, false, not, arith, ◌==◌, if◌then◌else◌,
}
use rubetek_ios_cpp_releases.Prelude.Outcome.{Outcome, done, aborted}
use native.Mathlib.Decide.{dec_lt}
use native.Mathlib.Nat.{one-le-pow, mod-eq_of_lt, mod-lt}

-- operator ++ and the value that the postfix form returns: the new and the old value.
unfoldable pub increment : ℕ → ℕ → ℕ → ℕ × ℕ
increment w step v = ((v + step) % 256 ^ w, v)

unfoldable pub decrement : ℕ → ℕ → ℕ → ℕ × ℕ
decrement w step v = ((v + 256 ^ w - step) % 256 ^ w, v)

-- operator += and operator -=: the amount has to be a multiple of the step.
unfoldable pub add : ℕ → ℕ → ℕ → ℕ → Outcome ℕ
add w step amount v = if amount % step == 0 then done ((v + amount) % 256 ^ w) else aborted

unfoldable pub sub : ℕ → ℕ → ℕ → ℕ → Outcome ℕ
sub w step amount v =
    if amount % step == 0 then done ((v + 256 ^ w - amount) % 256 ^ w) else aborted

-- `set` stores the value in the counter's type.
unfoldable pub set : ℕ → ℕ → ℕ → Outcome ℕ
set w step value = if value % 256 ^ w % step == 0 then done (value % 256 ^ w) else aborted

unfoldable pub reset : ℕ
reset = 0

pub set_one : (w value : ℕ) → set w 1 value ≡ done (value % 256 ^ w)
unfolding set
set_one w value = rw ((==_iff (value % 256 ^ w % 1) 0).1 (omega arith))

around : (m s v : ℕ) → v < m → s < m → ((v + s) % m + m - s) % m ≡ v
around m s v hv hs = elim (dec_lt (v + s) m) [
  | yes h ↦ let e : v + s + m - s ≡ v + m = omega arith in rw (mod-eq_of_lt h, e) (grind arith)
  | no h ↦
      let e : (v + s) % m ≡ v + s - m = grind arith in
      let f : v + s - m + m - s ≡ v = omega arith in rw (e, f) (mod-eq_of_lt hv)
]

-- Going up by a step and down again gives the old value, also over the end of the range, for a
-- value and a step within the range.
decrement-increment :
    (w step v : ℕ) → v < 256 ^ w → step < 256 ^ w → (decrement w step (increment w step v).0).0 ≡ v
unfolding increment decrement
decrement-increment w step v hv hs = around (256 ^ w) step v hv hs
