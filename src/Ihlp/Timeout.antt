-- ===== src/Ihlp/Timeout.antt =====
-- What check_timeout of transceiver.hpp makes of a peer that says nothing.
use rubetek_ios_cpp_releases.Prelude.{
  ℕ, ◌+◌, ◌≤◌, ◌<◌, ◌≡◌, refl, sym, ap, ◌∙◌, Bool, true, false, List, [], ◌∷◌, ◌++◌, append-nil,
  All, le→ltb, lt→ltb, if◌then◌else◌,
}
use rubetek_ios_cpp_releases.Prelude.Outcome.{Outcome, done, ◌>>=◌}
use rubetek_ios_cpp_releases.Dimension.Trigger
use rubetek_ios_cpp_releases.Spp.Framing.{frame}
use rubetek_ios_cpp_releases.Ihlp.{
  Transceiver, keep_alive, code, zzz_send_service_packet, zzz_wait_reception_response,
  zzz_set_next_reaction_time, check_timeout,
}
use rubetek_ios_cpp_releases.Ihlp.Answers.{IsReady, service_ready}

-- A client that checks at these times, until a check fails: the state, and whether all succeeded.
unfoldable pub check_all : ℕ → List ℕ → Transceiver → Outcome (Transceiver × Bool)
check_all w [] t = done (t, true)
check_all w (now ∷ times) t = check_timeout w now t >>= λ r. elim r.1 [
  | true ↦ check_all w times r.0
  | false ↦ done (r.0, false)
]

-- Checks in time change nothing.
check_all-early :
    (w : ℕ) (early times : List ℕ) (t : Transceiver)
    → All (λ now. now ≤ t.next_reaction_time) early
    → check_all w (early ++ times) t ≡ check_all w times t
unfolding check_all check_timeout
check_all-early w [] times t h = refl
check_all-early w (now ∷ early) times t (hn, h) =
    rw (le→ltb t.next_reaction_time now hn) (check_all-early w early times t h)

-- What a late check does, by whether an answer is awaited.
abbrev reaction : ℕ → ℕ → Transceiver → Bool → Outcome (Transceiver × Bool)
reaction w now t awaited =
    if awaited
    then done (t, false)
    else (zzz_send_service_packet w keep_alive t >>= λ u.
        done (zzz_wait_reception_response now u, true))

check_timeout-late :
    (w now : ℕ) (t : Transceiver)
    → t.next_reaction_time < now
    → check_timeout w now t ≡ reaction w now t t.wait_response
unfolding check_timeout
check_timeout-late w now t h = rw (lt→ltb t.next_reaction_time now h) refl

-- The first check that comes late while no answer is awaited sends a keep-alive packet.
first_late :
    (w now : ℕ) (t : Transceiver)
    → 0 < w
    → IsReady t
    → t.wait_response ≡ false
    → t.next_reaction_time < now
    → (u : Transceiver) × (check_timeout w now t ≡ done (u, true))
      × (u.spp_packer.sent ≡ t.spp_packer.sent ++ frame w (code keep_alive ∷ []) ∷ [])
      × (u.wait_response ≡ true)
      × (u.next_reaction_time ≡ now + t.response_time)
unfolding zzz_wait_reception_response zzz_set_next_reaction_time Trigger.set
first_late w now t hw r hf h =
    let (u, e, s, wr, nr) = service_ready w keep_alive t hw r in
    let sends : reaction w now t false ≡ done (zzz_wait_reception_response now u, true) =
      ap (λ m. m >>= λ v. done (zzz_wait_reception_response now v, true)) e in
    (
      zzz_wait_reception_response now u,
      check_timeout-late w now t h ∙ ap (reaction w now t) hf ∙ sends,
      s.sent,
      refl,
      ap (◌+◌ now) s.response_kept,
    )

check_all-step :
    (w now : ℕ) (times : List ℕ) (t u : Transceiver)
    → check_timeout w now t ≡ done (u, true)
    → check_all w (now ∷ times) t ≡ check_all w times u
unfolding check_all
check_all-step w now times t u e = rw e refl

check_all-lost :
    (w now : ℕ) (t : Transceiver)
    → t.wait_response ≡ true
    → t.next_reaction_time < now
    → check_all w (now ∷ []) t ≡ done (t, false)
unfolding check_all
check_all-lost w now t h k =
    let lost : check_timeout w now t ≡ done (t, false) =
      check_timeout-late w now t k ∙ ap (reaction w now t) h in
    rw lost refl

-- A peer that says nothing while no answer is awaited: a keep-alive packet goes out at the first
-- check behind the deadline, and the first check later than the response time after that one, and
-- no check before it, reports the loss.
pub silence_detected :
    (w late last : ℕ) (early waiting : List ℕ) (t : Transceiver)
    → 0 < w
    → IsReady t
    → t.wait_response ≡ false
    → All (λ now. now ≤ t.next_reaction_time) early
    → t.next_reaction_time < late
    → All (λ now. now ≤ late + t.response_time) waiting
    → late + t.response_time < last
    → (u : Transceiver) × (check_all w (early ++ late ∷ waiting) t ≡ done (u, true))
      × (check_all w (early ++ late ∷ (waiting ++ last ∷ [])) t ≡ done (u, false))
      × (u.spp_packer.sent ≡ t.spp_packer.sent ++ frame w (code keep_alive ∷ []) ∷ [])
unfolding check_all
silence_detected w late last early waiting t hw r hf he hl ha hz =
    let (u, e, s, wr, nr) = first_late w late t hw r hf hl in
    let quiet : All (λ now. now ≤ u.next_reaction_time) waiting = rw nr ha in
    (
      u,
      check_all-early w early (late ∷ waiting) t he
          ∙ check_all-step w late waiting t u e
          ∙ ap (λ l. check_all w l u) (sym (append-nil waiting))
          ∙ check_all-early w waiting [] u quiet,
      check_all-early w early (late ∷ (waiting ++ last ∷ [])) t he
          ∙ check_all-step w late (waiting ++ last ∷ []) t u e
          ∙ check_all-early w waiting (last ∷ []) u quiet
          ∙ check_all-lost w last u wr (rw nr hz),
      s,
    )
