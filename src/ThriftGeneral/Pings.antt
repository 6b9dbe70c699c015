-- ===== src/ThriftGeneral/Pings.antt =====
-- The timer of rubetek/proto/thrift/general.hpp: pings, and a peer that says nothing.
use rubetek_ios_cpp_releases.Prelude.{
  ℕ, ◌+◌, ◌-◌, ◌≤◌, ◌<◌, ◌≡◌, ◌≢◌, refl, ◌∙◌, inl, inr, true, false, List, [], ◌∷◌, All, ltb,
  le→ltb, lt→ltb, Bool-cases, arith,
}
use rubetek_ios_cpp_releases.ThriftGeneral.{General, Tick, response_timeout, idle}

-- The timer's calls at these times.
unfoldable pub idle_all : List ℕ → General → General × List Tick
idle_all [] g = (g, [])
idle_all (t ∷ ts) g =
    let (h, tick) = idle t g in let (last, ticks) = idle_all ts h in (last, tick ∷ ticks)

-- Before the response time is over.
idle_early :
    (now : ℕ) (g : General)
    → now ≤ g.last_response_time + g.response_timeout
    → ((idle now g).0.last_response_time ≡ g.last_response_time)
      × ((idle now g).0.response_timeout ≡ g.response_timeout)
      × ((idle now g).1 ≢ response_timeout)
unfolding idle
idle_early now g h =
    let early : ltb g.response_timeout (now - g.last_response_time) ≡ false =
      le→ltb g.response_timeout (now - g.last_response_time) (omega arith) in
    elim (Bool-cases (ltb g.next_ping_time now)) [
      | inl due ↦ rw (early, due) (refl, refl, λ e. cc)
      | inr not_due ↦ rw (early, not_due) (refl, refl, λ e. cc)
    ]

idle_all-early :
    (ts : List ℕ) (g : General)
    → All (λ t. t ≤ g.last_response_time + g.response_timeout) ts
    → ((idle_all ts g).0.last_response_time ≡ g.last_response_time)
      × ((idle_all ts g).0.response_timeout ≡ g.response_timeout)
      × All (λ tick. tick ≢ response_timeout) (idle_all ts g).1
unfolding idle_all
idle_all-early [] g h = (refl, refl, tt)
idle_all-early (t ∷ ts) g (ht, hts) =
    let (el, er, en) = idle_early t g ht in
    let (ll, lr, ln) = idle_all-early ts (idle t g).0 (rw (el, er) hts) in
    (ll ∙ el, lr ∙ er, (en, ln))

-- A peer that says nothing: whenever the timer calls, the response timeout is not reported as long
-- as no more than the timeout has passed since the last packet, and the first call behind it
-- reports it.
pub silence_reported :
    (ts : List ℕ) (t : ℕ) (g : General)
    → All (λ s. s ≤ g.last_response_time + g.response_timeout) ts
    → g.last_response_time + g.response_timeout < t
    → All (λ tick. tick ≢ response_timeout) (idle_all ts g).1
      × ((idle t (idle_all ts g).0).1 ≡ response_timeout)
unfolding idle
silence_reported ts t g h ht =
    let (el, er, en) = idle_all-early ts g h in
    let late : ltb (idle_all ts g).0.response_timeout (t - (idle_all ts g).0.last_response_time)
        ≡ true =
      lt→ltb _ _ (omega (arith, el, er)) in
    (en, rw late refl)
