-- ===== src/Spp/Parses.antt =====
-- The reading of a byte stream as packets, as a relation: what `unpack` (unpack.hpp) and
-- `unpacker` (unpacker.hpp) should both compute.
use rubetek_ios_cpp_releases.Prelude.{
  ℕ, zero, suc, ◌+◌, ◌≤◌, ◌<◌, ◌≡◌, refl, ap, ◌∙◌, ◌≢◌, ◌⊎◌, inl, inr, List, [], ◌∷◌, ◌++◌, length,
  take, drop, All, arith, length-drop, Bool-cases, ltb, of_le,
}
use rubetek_ios_cpp_releases.Prelude.Outcome.{done, ◌>>=◌}
use rubetek_ios_cpp_releases.Spp.{
  UnpackError, no_error, bad_header, bad_len, unpack_one, unpack_loop, unpack,
}
use rubetek_ios_cpp_releases.Spp.Framing.{
  frames, Fits, unpack_one-frame, unpack_one-append, unpack_one_inv,
}

-- `Parses w p ps r e`: the stream `p` starts with the packets `ps`, and `r` stays: nothing, or a
-- packet that has not arrived whole, for the reason `e`.
pub data Parses (w : ℕ) : List ℕ → List (List ℕ) → List ℕ → UnpackError → Type 0 where
  finished : Parses w [] [] [] no_error
  short :
      {p : List ℕ} {e : UnpackError}
      → 0 < length p
      → unpack_one w p ≡ ([], p, e)
      → e ≢ no_error
      → Parses w p [] p e
  next :
      {p pkt rest r : List ℕ} {ps : List (List ℕ)} {e : UnpackError}
      → unpack_one w p ≡ (pkt, rest, no_error)
      → Parses w rest ps r e
      → Parses w p (pkt ∷ ps) r e

pub unpack_one_cases :
    (w : ℕ) (p : List ℕ)
    → ((pkt : List ℕ) × (rest : List ℕ) × (unpack_one w p ≡ (pkt, rest, no_error)))
      ⊎ ((e : UnpackError) × (unpack_one w p ≡ ([], p, e)) × (e ≢ no_error))
unfolding unpack_one
unpack_one_cases w p =
    let len : ℕ = of_le (take w p) in
    elim (Bool-cases (ltb (length p) w)) [
      | inl h ↦ inr (bad_header, rw h, λ x. cc)
      | inr h ↦ elim (Bool-cases (ltb (length p) (w + of_le (take w p)))) [
        | inl k ↦ inr (bad_len, rw (h, k), λ x. cc)
        | inr k ↦ inl (take len (drop w p), drop len (drop w p), rw (h, k))
      ]
    ]

-- A packet takes its header from the stream at least.
pub unpack_one_shrinks :
    (w : ℕ) (p pkt rest : List ℕ)
    → unpack_one w p ≡ (pkt, rest, no_error)
    → length rest + w ≤ length p
unpack_one_shrinks w p pkt rest e =
    let (h, k, ep, er) = unpack_one_inv w p pkt rest e in
    omega (arith, ap length er, length-drop (of_le (take w p)) (drop w p), length-drop w p)

-- Every stream parses.
pub parses :
    (w fuel : ℕ) (p : List ℕ)
    → 0 < w
    → length p ≤ fuel
    → (ps : List (List ℕ)) × (r : List ℕ) × (e : UnpackError) × Parses w p ps r e
parses w fuel [] hw h = ([], [], no_error, finished)
parses w zero (b ∷ bs) hw h = absurd (omega arith)
parses w (suc fuel) (b ∷ bs) hw h = elim (unpack_one_cases w (b ∷ bs)) [
  | inl (pkt, rest, e) ↦
      let shorter : length rest ≤ fuel = omega (arith, unpack_one_shrinks w (b ∷ bs) pkt rest e) in
      let (ps, r, x, t) = parses w fuel rest hw shorter in (pkt ∷ ps, r, x, next e t)
  | inr (x, e, n) ↦ ([], b ∷ bs, x, short (omega arith) e n)
]

-- Input that arrives later is read behind what stayed.
pub Parses-append :
    {w : ℕ} {p r s : List ℕ} {ps qs : List (List ℕ)} {d e : UnpackError} (q : List ℕ)
    → Parses w p ps r d
    → Parses w (r ++ q) qs s e
    → Parses w (p ++ q) (ps ++ qs) s e
Parses-append q finished t = t
Parses-append q (short l e n) t = t
Parses-append q (next {p = p} {pkt = pkt} {rest = rest} e u) t =
    next (unpack_one-append _ p q pkt rest e) (Parses-append q u t)

-- What stayed has no packet at its front, so it parses to itself.
pub Parses_rest :
    {w : ℕ} {p r : List ℕ} {ps : List (List ℕ)} {e : UnpackError}
    → Parses w p ps r e
    → Parses w r [] r e
Parses_rest finished = finished
Parses_rest (short l e n) = short l e n
Parses_rest (next e u) = Parses_rest u

-- Frames parse to the packets that they frame, and leave nothing.
pub Parses-frames :
    (w : ℕ) (bs : List (List ℕ)) → All (Fits w) bs → Parses w (frames w bs) bs [] no_error
Parses-frames w [] h = finished
Parses-frames w (b ∷ bs) h = next (unpack_one-frame w b (frames w bs) h.0) (Parses-frames w bs h.1)

unpack_loop_short :
    (w fuel : ℕ) (p : List ℕ) (e : UnpackError)
    → 0 < length p
    → length p ≤ fuel
    → unpack_one w p ≡ ([], p, e)
    → e ≢ no_error
    → unpack_loop w fuel p ≡ done ([], e)
unfolding unpack_loop
unpack_loop_short w fuel [] e l h u n = absurd (omega arith)
unpack_loop_short w zero (b ∷ bs) e l h u n = absurd (omega arith)
unpack_loop_short w (suc fuel) (b ∷ bs) no_error l h u n = absurd (n refl)
unpack_loop_short w (suc fuel) (b ∷ bs) bad_header l h u n = rw (u, unpack_loop)
unpack_loop_short w (suc fuel) (b ∷ bs) bad_len l h u n = rw (u, unpack_loop)

unpack_loop_next :
    (w fuel : ℕ) (p pkt rest : List ℕ)
    → 0 < length p
    → unpack_one w p ≡ (pkt, rest, no_error)
    → unpack_loop w (suc fuel) p ≡ (unpack_loop w fuel rest >>= λ r. done (pkt ∷ r.0, r.1))
unfolding unpack_loop
unpack_loop_next w fuel [] pkt rest l u = absurd (omega arith)
unpack_loop_next w fuel (b ∷ bs) pkt rest l u = rw (u, unpack_loop) (rw u)

pub unpack_loop-Parses :
    {w : ℕ} {p r : List ℕ} {ps : List (List ℕ)} {e : UnpackError} (fuel : ℕ)
    → 0 < w
    → length p ≤ fuel
    → Parses w p ps r e
    → unpack_loop w fuel p ≡ done (ps, e)
unpack_loop-Parses fuel hw h finished = unfold unpack_loop in refl
unpack_loop-Parses fuel hw h (short l e n) = unpack_loop_short _ fuel _ _ l h e n
unpack_loop-Parses zero hw h (next {p} {pkt} {rest} e u) =
    absurd (omega (arith, unpack_one_shrinks _ p pkt rest e))
unpack_loop-Parses (suc fuel) hw h (next {p} {pkt} {rest} e u) =
    let l = unpack_one_shrinks _ p pkt rest e in
    unpack_loop_next _ fuel p pkt rest (omega arith) e
    ∙ rw (unpack_loop-Parses fuel hw (omega arith) u) refl

-- `unpack` delivers exactly the packets of the stream, with the reason why it stopped.
pub unpack-Parses :
    {w : ℕ} {p r : List ℕ} {ps : List (List ℕ)} {e : UnpackError}
    → 0 < w
    → Parses w p ps r e
    → unpack w p ≡ done (ps, e)
unfolding unpack
unpack-Parses {p} hw t = unpack_loop-Parses (length p) hw (omega arith) t

-- On every input `unpack` ends, with the packets of the stream and the reason why it stopped; the
-- length field has a byte at least.
pub unpack_total :
    (w : ℕ) (p : List ℕ)
    → 0 < w
    → (ps : List (List ℕ)) × (r : List ℕ) × (e : UnpackError) × (unpack w p ≡ done (ps, e))
      × Parses w p ps r e
unpack_total w p hw =
    let (ps, r, e, t) = parses w (length p) p hw (omega arith) in (ps, r, e, unpack-Parses hw t, t)
