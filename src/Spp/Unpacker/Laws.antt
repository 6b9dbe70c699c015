-- ===== src/Spp/Unpacker/Laws.antt =====
-- The unpacker reads its pieces as the one stream that they make up.
use rubetek_ios_cpp_releases.Prelude.{
  ℕ, zero, suc, ◌≤◌, ◌<◌, ◌≡◌, refl, sym, ◌∙◌, ◌≢◌, List, [], ◌∷◌, ◌++◌, append_assoc,
  if◌then◌else◌, append-nil, length, All, concat, arith, is_empty,
}
use rubetek_ios_cpp_releases.Prelude.Outcome.{done, ◌>>=◌}
use rubetek_ios_cpp_releases.Spp.{UnpackError, no_error, bad_header, bad_len, unpack_one}
use rubetek_ios_cpp_releases.Spp.Parses.{
  Parses, finished, short, next, parses, unpack_one_shrinks, Parses-append, Parses_rest,
  Parses-frames,
}
use rubetek_ios_cpp_releases.Spp.Framing.{frames, Fits}
use rubetek_ios_cpp_releases.Spp.Unpacker.{Unpacker, fresh, zzz_unpack, unpack, unpack_all}

zzz_unpack_short :
    (w fuel : ℕ) (p : List ℕ) (e : UnpackError)
    → 0 < length p
    → length p ≤ fuel
    → unpack_one w p ≡ ([], p, e)
    → e ≢ no_error
    → zzz_unpack w fuel p ≡ done ([], p)
unfolding zzz_unpack
zzz_unpack_short w fuel [] e l h u n = absurd (omega arith)
zzz_unpack_short w zero (b ∷ bs) e l h u n = absurd (omega arith)
zzz_unpack_short w (suc fuel) (b ∷ bs) no_error l h u n = absurd (n refl)
zzz_unpack_short w (suc fuel) (b ∷ bs) bad_header l h u n = rw (u, zzz_unpack) (rw u)
zzz_unpack_short w (suc fuel) (b ∷ bs) bad_len l h u n = rw (u, zzz_unpack) (rw u)

zzz_unpack_next :
    (w fuel : ℕ) (p pkt rest : List ℕ)
    → 0 < length p
    → unpack_one w p ≡ (pkt, rest, no_error)
    → zzz_unpack w (suc fuel) p ≡ (zzz_unpack w fuel rest >>= λ r. done (pkt ∷ r.0, r.1))
unfolding zzz_unpack
zzz_unpack_next w fuel [] pkt rest l u = absurd (omega arith)
zzz_unpack_next w fuel (b ∷ bs) pkt rest l u = rw (u, zzz_unpack) (rw u)

pub zzz_unpack-Parses :
    {w : ℕ} {p r : List ℕ} {ps : List (List ℕ)} {e : UnpackError} (fuel : ℕ)
    → 0 < w
    → length p ≤ fuel
    → Parses w p ps r e
    → zzz_unpack w fuel p ≡ done (ps, r)
zzz_unpack-Parses fuel hw h finished = unfold zzz_unpack in refl
zzz_unpack-Parses fuel hw h (short l e n) = zzz_unpack_short _ fuel _ _ l h e n
zzz_unpack-Parses zero hw h (next {p} {pkt} {rest} e u) =
    absurd (omega (arith, unpack_one_shrinks _ p pkt rest e))
zzz_unpack-Parses (suc fuel) hw h (next {p} {pkt} {rest} e u) =
    let l = unpack_one_shrinks _ p pkt rest e in
    zzz_unpack_next _ fuel p pkt rest (omega arith) e
    ∙ rw (zzz_unpack-Parses fuel hw (omega arith) u) refl

buffered :
    (buf packets : List ℕ) → (if is_empty buf then packets else buf ++ packets) ≡ buf ++ packets
buffered [] packets = refl
buffered (b ∷ bs) packets = refl

-- One call reads what stayed and what is new as one stream.
pub unpack-Parses :
    {w : ℕ} {r : List ℕ} {ps : List (List ℕ)} {e : UnpackError} (u : Unpacker) (packets : List ℕ)
    → 0 < w
    → Parses w (u.buf ++ packets) ps r e
    → unpack w u packets ≡ done (ps, record { buf = r })
unfolding unpack
unpack-Parses {w} u packets hw t =
    rw (buffered u.buf packets, zzz_unpack-Parses (length (u.buf ++ packets)) hw (omega arith) t)
      refl

-- The state between two calls: no whole packet is kept back.
pub record IsIdle (w : ℕ) (u : Unpacker) : Type 0 where
  pub error : UnpackError
  pub kept : Parses w u.buf [] u.buf error

pub fresh-IsIdle : (w : ℕ) → IsIdle w fresh
fresh-IsIdle w = record { error = no_error; kept = finished }

-- Every call ends, delivers the packets of the stream so far, and leaves the unpacker idle.
pub unpack_ends :
    (w : ℕ) (u : Unpacker) (packets : List ℕ)
    → 0 < w
    → (ps : List (List ℕ)) × (v : Unpacker) × (e : UnpackError) × (unpack w u packets
        ≡ done (ps, v))
      × Parses w (u.buf ++ packets) ps v.buf e
unpack_ends w u packets hw =
    let (ps, r, e, t) = parses w (length (u.buf ++ packets)) (u.buf ++ packets) hw (omega arith) in
    (ps, record { buf = r }, e, unpack-Parses u packets hw t, t)

-- However a stream is cut into pieces, an unpacker that keeps no whole packet delivers the packets
-- that one call over the whole stream would deliver, and keeps what that call would keep. The
-- length field has a byte at least.
pub unpack_all-concat :
    (w : ℕ) (u : Unpacker) (pieces : List (List ℕ))
    → 0 < w
    → IsIdle w u
    → unpack_all w u pieces ≡ unpack w u (concat pieces)
unfolding unpack_all
unpack_all-concat w u [] hw idle =
    let kept : Parses w (u.buf ++ []) [] u.buf idle.error = rw append-nil idle.kept in
    sym (unpack-Parses u [] hw kept)
unpack_all-concat w u (piece ∷ pieces) hw idle =
    let (ps, v, e, run, t) = unpack_ends w u piece hw in
    let later = unpack_all-concat w v pieces hw (record { error = e; kept = Parses_rest t }) in
    let (qs, x, d, run', t') = unpack_ends w v (concat pieces) hw in
    let whole : Parses w (u.buf ++ (piece ++ concat pieces)) (ps ++ qs) x.buf d =
      rw (← append_assoc u.buf piece (concat pieces)) (Parses-append (concat pieces) t t') in
    rw (run, later, run') (sym (unpack-Parses u (piece ++ concat pieces) hw whole))

-- A stream of frames, each of a packet that the length field can count, cut in any way, is
-- delivered by a new unpacker as the packets that were framed, and nothing is kept.
pub unpack_all-frames :
    (w : ℕ) (bs pieces : List (List ℕ))
    → 0 < w
    → All (Fits w) bs
    → concat pieces ≡ frames w bs
    → unpack_all w fresh pieces ≡ done (bs, fresh)
unpack_all-frames w bs pieces hw h e =
    unpack_all-concat w fresh pieces hw (fresh-IsIdle w)
    ∙ unpack-Parses {e = no_error} fresh (concat pieces) hw (rw e (Parses-frames w bs h))
