-- ===== src/PlainTrain/Receive.antt =====
-- One numbered packet at the receiver.
use native.Mathlib.Nat.{one-le-pow, mod-lt}
use rubetek_ios_cpp_releases.Prelude.{
  ℕ, ◌+◌, ◌%◌, ◌^◌, ◌≤◌, ◌<◌, ◌≡◌, refl, sym, ap, ◌∙◌, true, false, List, [], ◌∷◌, ◌++◌, length,
  to_le, ◌==◌, ◌||◌, if◌then◌else◌, All, concat, arith, le→ltb, length-append, length-to_le,
  of_le-to_le, take-append_eq, drop-append_eq, ==_iff,
}
use rubetek_ios_cpp_releases.Prelude.Outcome.{done}
use rubetek_ios_cpp_releases.Dimension.{set_one}
use rubetek_ios_cpp_releases.Spp.Framing.{frames, Fits}
use rubetek_ios_cpp_releases.Spp.Parses.{Parses-frames, unpack-Parses}
use rubetek_ios_cpp_releases.PlainTrain.{Unwrapper, check_counter, add_packet, receive_all}

-- The number behind `n`, and behind `n` and the packets `gs`.
abbrev pub next : ℕ → ℕ → ℕ
next c n = (n + 1) % 256 ^ c

abbrev pub after : ℕ → ℕ → List (List (List ℕ)) → ℕ
after c n [] = n
after c n (g ∷ gs) = after c (next c n) gs

-- The packets that the sender makes of the groups of blocks `gs`, from number `n` on.
abbrev pub numbered : ℕ → ℕ → ℕ → List (List (List ℕ)) → List (List ℕ)
numbered w c n [] = []
numbered w c n (g ∷ gs) = (to_le c n ++ frames w g) ∷ numbered w c (next c n) gs

pub next-lt : (c n : ℕ) → next c n < 256 ^ c
next-lt c n = mod-lt (n + 1) (one-le-pow c 256 (omega arith))

pub after-lt : (c n : ℕ) (gs : List (List (List ℕ))) → n < 256 ^ c → after c n gs < 256 ^ c
after-lt c n [] h = h
after-lt c n (g ∷ gs) h = after-lt c (next c n) gs (next-lt c n)

pub numbered-append :
    (w c n : ℕ) (gs hs : List (List (List ℕ)))
    → numbered w c n (gs ++ hs) ≡ numbered w c n gs ++ numbered w c (after c n gs) hs
numbered-append w c n [] hs = refl
numbered-append w c n (g ∷ gs) hs =
    ap (◌∷◌ (to_le c n ++ frames w g)) (numbered-append w c (next c n) gs hs)

pub after-append :
    (c n : ℕ) (gs hs : List (List (List ℕ))) → after c n (gs ++ hs) ≡ after c (after c n gs) hs
after-append c n [] hs = refl
after-append c n (g ∷ gs) hs = after-append c (next c n) gs hs

-- The receiver after a good packet with the number `n`.
abbrev pub noted : ℕ → ℕ → Unwrapper → Unwrapper
noted c n u = record u {
  first_packet = false;
  counter = next c n;
  counter_errors =
      if u.first_packet || n == u.counter
      then u.counter_errors
      else (u.counter_errors + 1) % 256 ^ u.uint_size;
}

check_lem :
    (c n : ℕ) (u : Unwrapper) → record (check_counter n u) { counter = next c n } ≡ noted c n u
unfolding check_counter
check_lem c n u = ground arith

-- A numbered packet of frames is delivered whole. It counts as a counter error exactly if it is
-- not the first one and its number is not the expected one.
pub add_packet_numbered :
    (w c n : ℕ) (g : List (List ℕ)) (u : Unwrapper)
    → 0 < w
    → n < 256 ^ c
    → All (Fits w) g
    → add_packet w c (to_le c n ++ frames w g) u ≡ done (noted c n u, g)
unfolding add_packet
add_packet_numbered w c n g u hw hn h =
    let size = length-append (to_le c n) (frames w g) in
    let l = length-to_le c n in
    let short : c ≤ length (to_le c n ++ frames w g) = omega arith in
    rw
      (
        le→ltb _ _ short,
        take-append_eq c (to_le c n) (frames w g) (sym l),
        drop-append_eq c (to_le c n) (frames w g) (sym l),
        of_le-to_le c n hn,
        set_one c (n + 1),
        unpack-Parses hw (Parses-frames w g h),
      )
      (ap (λ v. done (v, g)) (check_lem c n u))

-- A run of numbered packets that starts with the expected number leaves the errors as they were.
pub receive_all-numbered :
    (w c n : ℕ) (gs : List (List (List ℕ))) (u : Unwrapper)
    → 0 < w
    → n < 256 ^ c
    → All (All (Fits w)) gs
    → (u.first_packet || n == u.counter) ≡ true
    → (v : Unwrapper) × (receive_all w c (numbered w c n gs) u ≡ done (v, concat gs))
      × (v.counter_errors ≡ u.counter_errors)
      × (v.protocol_errors ≡ u.protocol_errors)
      × ((v.first_packet || after c n gs == v.counter) ≡ true)
unfolding receive_all
receive_all-numbered w c n [] u hw hn h e = (u, refl, refl, refl, e)
receive_all-numbered w c n (g ∷ gs) u hw hn h e =
    let same : (noted c n u).counter_errors ≡ u.counter_errors = rw e in
    let (v, run, ce, pe, x) =
      receive_all-numbered w c (next c n) gs (noted c n u) hw (next-lt c n) h.1
        ((==_iff (next c n) (next c n)).1 refl) in
    (v, rw (add_packet_numbered w c n g u hw hn h.0) (rw run), ce ∙ same, pe, x)
