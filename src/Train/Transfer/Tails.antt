-- ===== src/Train/Transfer/Tails.antt =====
-- The rest of a wagon that has begun goes through add_wagon (train/wrapper.hpp) to an unwrapper in
-- step (train/unwrapper.hpp).
use mathlib.Core.Path.{subst}
use native.Mathlib.Decide.{dec_lt}
use rubetek_ios_cpp_releases.Prelude.{
  ℕ, zero, suc, ◌+◌, ◌-◌, ◌%◌, ◌<◌, ◌≤◌, ◌≡◌, refl, sym, ap, ◌∙◌, List, [], ◌∷◌, ◌++◌, append_assoc,
  length, take, drop, arith, length-append, length-take, length-drop, take-append-drop, take-all,
  drop-all,
}
use rubetek_ios_cpp_releases.Prelude.Outcome.{done}
use rubetek_ios_cpp_releases.Train.{Block}
use rubetek_ios_cpp_releases.Train.Wrapper.{start_packet, add_wagon_loop}
use rubetek_ios_cpp_releases.Train.Unwrapper.{add_packet}
use rubetek_ios_cpp_releases.Train.Transfer.{in_step, WagonOf, Part, no_part, part_of}
use rubetek_ios_cpp_releases.Train.Transfer.Held.{packet, goes_on, fills}
use rubetek_ios_cpp_releases.Train.Transfer.Taken.{received, length-packet}
use rubetek_ios_cpp_releases.Train.Transfer.Rounds.{at, start_idle, round_full}
use rubetek_ios_cpp_releases.Train.Transfer.Loads.{
  IsSize, Loaded, Loaded-cons, Loaded-idle, pointer_full, packet-append, tail_open,
}

pub WagonOf-split :
    (b : Block) (p left : List ℕ) (n : ℕ)
    → WagonOf b (p ++ left)
    → WagonOf b ((p ++ take n left) ++ drop n left)
WagonOf-split b p left n h =
    subst (WagonOf b)
      (ap (◌++◌ p) (sym (take-append-drop n left))
        ∙ sym (append_assoc p (take n left) (drop n left)))
      h

-- A packet that goes on with a wagon is full, and is taken.
tail_full :
    (size k n us ce pe : ℕ) (b : Block) (p left : List ℕ)
    → k < 65536
    → 64 ≤ size
    → size % 4 ≡ 0
    → WagonOf b (p ++ left)
    → 4 ≤ length p
    → length p % 4 ≡ 0
    → n ≡ size - 4
    → n < length left
    → Part (p ++ take n left)
      × (add_packet (packet k 0xffff [] ++ take n left) (in_step p k us ce pe)
          ≡ done (in_step (p ++ take n left) ((k + 1) % 65536) us ce pe, []))
tail_full size k n us ce pe b p left hk hs hz h hp hm hn hl =
    let m : List ℕ = take n left in
    let long : length m ≡ n = omega (arith, length-take n left) in
    let size_m = length-append p m in
    let part : Part (p ++ m) =
      part_of b (drop n left) (WagonOf-split b p left n h) (omega (arith, size_m))
        (omega (arith, size_m, long)) (omega (arith, length-drop n left)) in
    let short = length-packet k us ce pe 0xffff m in
    let e = packet-append k 0xffff m in
    (
      part,
      received k us ce pe p (packet k 0xffff [] ++ m) [] (p ++ m) (goes_on m hp hm e refl refl) part
          hk (omega (arith, short, ap length e, long)) (omega (arith, short, ap length e, long)),
    )

-- A packet that the end of a wagon fills.
tail_last :
    (size k us ce pe : ℕ) (b : Block) (p left : List ℕ)
    → k < 65536
    → 64 ≤ size
    → size % 4 ≡ 0
    → WagonOf b (p ++ left)
    → 4 ≤ length p
    → length p % 4 ≡ 0
    → length left ≡ size - 4
    → add_packet (packet k 0xffff [] ++ left) (in_step p k us ce pe)
      ≡ done (in_step [] ((k + 1) % 65536) us ce pe, b ∷ [])
tail_last size k us ce pe b p left hk hs hz h hp hm hl =
    let short = length-packet k us ce pe 0xffff left in
    let e = packet-append k 0xffff left in
    received k us ce pe p (packet k 0xffff [] ++ left) (b ∷ []) []
      (fills b left h hp hm e refl refl) no_part hk (omega (arith, short, ap length e))
      (omega (arith, short, ap length e))

-- The rest of a wagon that has begun, in new packets.
pub tail :
    (fuel size k wagon_size : ℕ) (memory : List ℕ) (b : Block) (p left : List ℕ)
    → IsSize size
    → k < 65536
    → WagonOf b (p ++ left)
    → 4 ≤ length p
    → length p % 4 ≡ 0
    → 0 < length left
    → length left ≤ fuel
    → length left < wagon_size
    → Loaded (add_wagon_loop fuel wagon_size left (at size [] memory k)) p k size memory (b ∷ [])
tail zero size k wagon_size memory b p left hs hk h hp hm hl hf hw = absurd (omega arith)
tail (suc fuel) size k wagon_size memory b p left hs hk h hp hm hl hf hw =
    let n : ℕ = size - 4 in
    let k' : ℕ = (k + 1) % 65536 in
    let q : List ℕ = packet k 0xffff [] in
    let short = length-packet k 0 0 0 0xffff [] in
    elim (dec_lt (length left) n) [
      | yes few ↦ tail_open fuel size k wagon_size memory b p left hs hk h hp hm hl few hw
      | no many ↦
          let start : start_packet wagon_size (length left) (at size [] memory k)
              ≡ at size q memory k' =
            start_idle wagon_size (length left) size k memory
            ∙ ap (λ i. at size (packet k i []) memory k')
                (pointer_full size wagon_size (length left) (omega arith) hw) in
          let round =
            round_full fuel wagon_size size k' n left q memory (at size [] memory k) start
              (omega (arith, short)) (omega (arith, hs.low)) (omega arith)
              (omega (arith, short, hs.low)) in
          subst (λ m. Loaded m p k size memory (b ∷ [])) (sym round)
            (elim (dec_lt n (length left)) [
              | yes more ↦
                  let long = length-take n left in
                  let size_m = length-append p (take n left) in
                  let rest = length-drop n left in
                  let next =
                    tail fuel size k' wagon_size memory b (p ++ take n left) (drop n left) hs
                      (omega arith) (WagonOf-split b p left n h) (omega (arith, size_m))
                      (omega (arith, size_m, long, hs.words, hs.low)) (omega (arith, rest))
                      (omega (arith, rest, hs.low)) (omega (arith, rest)) in
                  Loaded-cons (q ++ take n left)
                    (λ us ce pe.
                      (tail_full size k n us ce pe b p left hk hs.low hs.words h hp hm refl more).1)
                    next
              | no last ↦
                  let exact : length left ≡ n = omega arith in
                  rw (take-all n left (omega arith), drop-all n left (omega arith))
                    (Loaded-cons (q ++ left)
                      (λ us ce pe.
                        tail_last size k us ce pe b p left hk hs.low hs.words h hp hm exact)
                      (Loaded-idle fuel wagon_size (omega arith)))
            ])
    ]
