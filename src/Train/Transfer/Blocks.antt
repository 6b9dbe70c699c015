-- ===== src/Train/Transfer/Blocks.antt =====
-- Blocks from a wrapper (train/wrapper.hpp) to an unwrapper in step (train/unwrapper.hpp).
use mathlib.Core.Path.{subst}
use rubetek_ios_cpp_releases.Prelude.{
  ℕ, ◌+◌, ◌%◌, ◌<◌, ◌≡◌, refl, sym, ap, ◌∙◌, List, [], ◌∷◌, ◌++◌, append_assoc, append-nil, All,
  arith,
}
use rubetek_ios_cpp_releases.Prelude.Outcome.{Outcome, done, thrown, aborted, exhausted, ◌>>=◌}
use rubetek_ios_cpp_releases.Train.{Block}
use rubetek_ios_cpp_releases.Train.Wrapper
use rubetek_ios_cpp_releases.Train.Wrapper.{Wrapper, wagon_header, flush}
use rubetek_ios_cpp_releases.Train.Wrapper.Blocks.{HasMemory, add_block_wagon}
use rubetek_ios_cpp_releases.Train.Unwrapper
use rubetek_ios_cpp_releases.Train.Unwrapper.{Unwrapper}
use rubetek_ios_cpp_releases.Train.Transfer.{in_step, IsSendable, no_part}
use rubetek_ios_cpp_releases.Train.Transfer.Wagon.{wagon-WagonOf}
use rubetek_ios_cpp_releases.Train.Transfer.Held.{Held, Open-Held}
use rubetek_ios_cpp_releases.Train.Transfer.Taken.{received}
use rubetek_ios_cpp_releases.Train.Transfer.Rounds.{at}
use rubetek_ios_cpp_releases.Train.Transfer.Loads.{IsSize, Rest, idle, opened, Loaded}
use rubetek_ios_cpp_releases.Train.Transfer.Wagons.{wagon_sent}

-- A run, then another one, and what both deliver.
abbrev Run : Type 0
Run = Outcome (Unwrapper × List Block)

abbrev after : List Block → Run → Run
after bs m = m >>= λ s. done (s.0, bs ++ s.1)

abbrev then_run : Run → (Unwrapper → Run) → Run
then_run m f = m >>= λ r. after r.1 (f r.0)

after-nil : (m : Run) → after [] m ≡ m
after-nil (done a) = refl
after-nil thrown = refl
after-nil aborted = refl
after-nil exhausted = refl

after-append : (bs cs : List Block) (m : Run) → after bs (after cs m) ≡ after (bs ++ cs) m
after-append bs cs (done (u, ds)) = ap (λ l. done (u, l)) (sym (append_assoc bs cs ds))
after-append bs cs thrown = refl
after-append bs cs aborted = refl
after-append bs cs exhausted = refl

after-then_run :
    (bs : List Block) (m : Run) (g : Unwrapper → Run)
    → after bs (then_run m g) ≡ then_run (after bs m) g
after-then_run bs (done (u, cs)) g = after-append bs cs (g u)
after-then_run bs thrown g = refl
after-then_run bs aborted g = refl
after-then_run bs exhausted g = refl

then_run_assoc :
    (m : Run) (f g h : Unwrapper → Run)
    → ((u : Unwrapper) → h u ≡ then_run (f u) g)
    → then_run m h ≡ then_run (then_run m f) g
then_run_assoc (done (u, bs)) f g h e = ap (after bs) (e u) ∙ after-then_run bs (f u) g
then_run_assoc thrown f g h e = refl
then_run_assoc aborted f g h e = refl
then_run_assoc exhausted f g h e = refl

pub add_all-append :
    (xs ys : List (List ℕ)) (u : Unwrapper)
    → Unwrapper.add_all (xs ++ ys) u ≡ then_run (Unwrapper.add_all xs u) (Unwrapper.add_all ys)
unfolding Unwrapper.add_all
add_all-append [] ys u = sym (after-nil (Unwrapper.add_all ys u))
add_all-append (x ∷ xs) ys u =
    then_run_assoc (Unwrapper.add_packet x u) (Unwrapper.add_all xs) (Unwrapper.add_all ys)
      (Unwrapper.add_all (xs ++ ys)) (add_all-append xs ys)

-- What the wrapper sends, an unwrapper in step delivers.
record Delivers (run : Outcome (Wrapper × List (List ℕ))) (w : List ℕ) (c : ℕ) (bs : List Block)
    : Type 0 where
  pub t : Wrapper
  pub sent : List (List ℕ)
  pub c' : ℕ
  pub ran : run ≡ done (t, sent)
  pub delivered :
      (us ce pe : ℕ)
      → Unwrapper.add_all sent (in_step w c us ce pe) ≡ done (in_step [] c' us ce pe, bs)

last_packet :
    (size k c : ℕ) (w q memory : List ℕ) (bs : List Block)
    → IsSize size
    → c < 65536
    → Rest size q k w c bs
    → Delivers (Wrapper.add_all [] (at size q memory k)) w c bs
unfolding Wrapper.add_all flush Unwrapper.add_all
last_packet size k c w q memory bs hs hc (idle eq ek ew eb) = record {
  t = at size [] memory k;
  sent = [];
  c' = c;
  ran = rw eq refl;
  delivered = λ us ce pe. rw (ew, eb) refl;
}
last_packet size k c w [] memory bs hs hc (opened o ek hq hm hr) = absurd (omega arith)
last_packet size k c w (x ∷ q) memory bs hs hc (opened o ek hq hm hr) =
    let held : Held w (x ∷ q) c bs [] =
      subst (λ l. Held w l c bs []) (append-nil (x ∷ q)) (Open-Held [] o) in
    record {
      t = at size [] memory k;
      sent = (x ∷ q) ∷ [];
      c' = (c + 1) % 65536;
      ran = refl;
      delivered = λ us ce pe.
          rw (received c us ce pe w (x ∷ q) bs [] held no_part hc hq hm)
            (ap (λ l. done (in_step [] ((c + 1) % 65536) us ce pe, l)) (append-nil bs));
    }

deliver :
    (bs held : List Block) (size k c : ℕ) (w q memory : List ℕ)
    → IsSize size
    → c < 65536
    → All IsSendable bs
    → HasMemory (at size q memory k)
    → Rest size q k w c held
    → Delivers (Wrapper.add_all bs (at size q memory k)) w c (held ++ bs)
unfolding Wrapper.add_all
deliver [] held size k c w q memory hs hc hb hm r =
    subst (Delivers _ w c) (sym (append-nil held)) (last_packet size k c w q memory held hs hc r)
deliver (b ∷ bs) held size k c w q memory hs hc (h, hb) hm r =
    let (padding, memory', long, hm', run) = add_block_wagon b (at size q memory k) hm h.small in
    let wagon : List ℕ = wagon_header b ++ (b.bytes ++ padding) in
    let l : Loaded _ w c size memory' (held ++ b ∷ []) =
      wagon_sent size k c w q memory' held b wagon hs hc (wagon-WagonOf b padding h long) r in
    let d = deliver bs l.held size l.k l.c' l.w' l.q memory' hs l.counted hb hm' l.rest in
    record {
      t = d.t;
      sent = l.sent ++ d.sent;
      c' = d.c';
      ran = rw (run, l.ran, d.ran) refl;
      delivered = λ us ce pe.
          add_all-append l.sent d.sent (in_step w c us ce pe)
          ∙ rw (l.taken us ce pe, d.delivered us ce pe) refl
          ∙ ap (λ x. done (in_step [] d.c' us ce pe, x))
              (sym (append_assoc l.delivered l.held bs)
                ∙ ap (λ x. x ++ bs) l.all
                ∙ append_assoc held (b ∷ []) bs);
    }

-- Blocks of at most 65520 bytes each, with identifiers that their fields can hold, go to a wrapper
-- that has nothing begun and whose wagon memory is whole; its packet size is one that the
-- constructor takes. All are sent, and an unwrapper in step, which awaits the number of the next
-- packet, delivers them as they were, in order, and is in step again; no error is counted.
pub blocks_delivered :
    (bs : List Block) (size k uint_size counter_errors protocol_errors : ℕ) (memory : List ℕ)
    → IsSize size
    → k < 65536
    → HasMemory (at size [] memory k)
    → All IsSendable bs
    → (t : Wrapper) × (sent : List (List ℕ)) × (c : ℕ) × (Wrapper.add_all bs (at size [] memory k)
        ≡ done (t, sent))
      × (Unwrapper.add_all sent (in_step [] k uint_size counter_errors protocol_errors)
          ≡ done (in_step [] c uint_size counter_errors protocol_errors, bs))
blocks_delivered bs size k us ce pe memory hs hk hm hb =
    let d = deliver bs [] size k k [] [] memory hs hk hb hm (idle refl refl refl refl) in
    (d.t, d.sent, d.c', d.ran, d.delivered us ce pe)
