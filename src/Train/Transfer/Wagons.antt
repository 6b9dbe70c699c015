-- ===== src/Train/Transfer/Wagons.antt =====
-- A whole wagon goes through add_wagon (train/wrapper.hpp) to an unwrapper in step
-- (train/unwrapper.hpp).
use mathlib.Core.Path.{subst}
use native.Mathlib.Decide.{dec_lt}
use rubetek_ios_cpp_releases.Prelude.{
  ℕ, suc, ◌+◌, ◌-◌, ◌%◌, ◌<◌, ◌≤◌, ◌≡◌, refl, sym, ap, ◌∙◌, List, [], ◌∷◌, ◌++◌, append-nil, length,
  take, drop, arith, length-append, length-take, length-drop, take-all, drop-all,
}
use rubetek_ios_cpp_releases.Train.{Block}
use rubetek_ios_cpp_releases.Train.Wrapper.{Wrapper, start_packet, add_wagon_loop}
use rubetek_ios_cpp_releases.Train.Unwrapper
use rubetek_ios_cpp_releases.Train.Unwrapper.{add_packet}
use rubetek_ios_cpp_releases.Train.Transfer.{WagonOf, none_of, Part, no_part, part_of}
use rubetek_ios_cpp_releases.Train.Transfer.Held.{packet, Held, Open, begun, Open-Held, Open-append}
use rubetek_ios_cpp_releases.Train.Transfer.Taken.{received, length-packet}
use rubetek_ios_cpp_releases.Train.Transfer.Rounds.{
  at, start_idle, start_open, round_full, round_open,
}
use rubetek_ios_cpp_releases.Train.Transfer.Loads.{
  IsSize, Rest, idle, opened, Loaded, Loaded-cons, Loaded-idle, pointer_start,
}
use rubetek_ios_cpp_releases.Train.Transfer.Tails.{WagonOf-split, tail}

-- A wagon starts in the packet that has room.
wagon_open :
    (fuel size c : ℕ) (w q memory : List ℕ) (bs : List Block) (b : Block) (wagon : List ℕ)
    (t : Wrapper)
    → IsSize size
    → c < 65536
    → WagonOf b wagon
    → Open w q c bs
    → 4 ≤ length q
    → length q % 4 ≡ 0
    → length q < size
    → length wagon ≤ suc fuel
    → start_packet (length wagon) (length wagon) t ≡ at size q memory ((c + 1) % 65536)
    → Loaded (add_wagon_loop (suc fuel) (length wagon) wagon t) w c size memory (bs ++ b ∷ [])
unfolding Unwrapper.add_all
wagon_open fuel size c w q memory bs b wagon t hs hc h o hq hm hr hf start =
    let k : ℕ = (c + 1) % 65536 in
    let n : ℕ = size - length q in
    let some_left : 0 < length wagon = omega (arith, h.whole) in
    elim (dec_lt (length wagon) n) [
      | yes few ↦
          let long = length-append q wagon in
          record {
            q = q ++ wagon;
            k = k;
            sent = [];
            w' = w;
            c' = c;
            delivered = [];
            held = bs ++ b ∷ [];
            ran =
                round_open fuel (length wagon) size k wagon q memory t start some_left
                  (omega arith);
            taken = λ us ce pe. refl;
            all = refl;
            counted = hc;
            rest =
                opened (Open-append b wagon h o) refl (omega (arith, long, h.whole, h.headed))
                  (omega (arith, long, h.whole)) (omega (arith, long));
          }
      | no many ↦
          let round =
            round_full fuel (length wagon) size k n wagon q memory t start (omega arith)
              (omega arith) (omega arith) (omega arith) in
          subst (λ m. Loaded m w c size memory (bs ++ b ∷ [])) (sym round)
            (elim (dec_lt n (length wagon)) [
              | yes more ↦
                  let p : List ℕ = take n wagon in
                  let long = length-take n wagon in
                  let rest = length-drop n wagon in
                  let size_q = length-append q p in
                  let split = WagonOf-split b [] wagon n h in
                  let part : Part p =
                    part_of b (drop n wagon) split (omega (arith, long, hs.words))
                      (omega (arith, long, hs.words)) (omega (arith, rest)) in
                  Loaded-cons (q ++ p)
                    (λ us ce pe.
                      received c us ce pe w (q ++ p) bs p (Open-Held p o) part hc
                        (omega (arith, size_q, long, hs.low))
                        (omega (arith, size_q, long, hs.words)))
                    (tail fuel size k (length wagon) memory b p (drop n wagon) hs (omega arith)
                      split (omega (arith, long, hs.words)) (omega (arith, long, hs.words))
                      (omega (arith, rest)) (omega (arith, rest)) (omega (arith, rest)))
              | no last ↦
                  let size_q = length-append q wagon in
                  let held : Held w (q ++ wagon) c (bs ++ b ∷ []) [] =
                    subst (λ l. Held w l c (bs ++ b ∷ []) []) (append-nil (q ++ wagon))
                      (Open-Held [] (Open-append b wagon h o)) in
                  rw (take-all n wagon (omega arith), drop-all n wagon (omega arith))
                    (subst (Loaded _ w c size memory) (append-nil (bs ++ b ∷ [])) (
                      Loaded-cons (q ++ wagon)
                        (λ us ce pe.
                          received c us ce pe w (q ++ wagon) (bs ++ b ∷ []) [] held no_part hc
                            (omega (arith, size_q, hs.low)) (omega (arith, size_q, h.whole)))
                        (Loaded-idle fuel (length wagon) (omega arith))))
            ])
    ]

-- A wagon after a wagon.
pub wagon_sent :
    (size k c : ℕ) (w q memory : List ℕ) (bs : List Block) (b : Block) (wagon : List ℕ)
    → IsSize size
    → c < 65536
    → WagonOf b wagon
    → Rest size q k w c bs
    → Loaded
        (add_wagon_loop (length wagon) (length wagon) wagon (at size q memory k))
        w
        c
        size
        memory
        (bs ++ b ∷ [])
wagon_sent size k c w q memory bs b [] hs hc h r = absurd (omega (arith, h.whole))
wagon_sent size k c w [] memory bs b (x ∷ wagon) hs hc h (opened o ek hq hm hr) =
    absurd (omega arith)
wagon_sent size k c w (y ∷ q) memory bs b (x ∷ wagon) hs hc h (opened o ek hq hm hr) =
    wagon_open (length wagon) size c w (y ∷ q) memory bs b (x ∷ wagon) (at size (y ∷ q) memory k) hs
      hc h o (omega (arith, hq)) hm hr (omega arith)
      (start_open _ _ size k y q memory ∙ ap (at size (y ∷ q) memory) ek)
wagon_sent size k c w q memory bs b (x ∷ wagon) hs hc h (idle eq ek ew eb) =
    let short = length-packet c 0 0 0 0 [] in
    let e : at size q memory k ≡ at size [] memory c = rw (eq, ek) refl in
    wagon_open (length wagon) size c w (packet c 0 []) memory bs b (x ∷ wagon) (at size q memory k)
      hs hc h (begun [] ew refl (rw eb none_of)) (omega (arith, short)) (omega (arith, short))
      (omega (arith, short, hs.low)) (omega arith)
      (ap (start_packet _ _) e
        ∙ start_idle _ _ size c memory
        ∙ ap (λ i. at size (packet c i []) memory ((c + 1) % 65536))
            (pointer_start size (length (x ∷ wagon))))
