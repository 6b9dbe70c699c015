-- ===== src/Train/Transfer/Loads.antt =====
-- A wagon goes through the rounds of add_wagon (train/wrapper.hpp), and the packets sent on the way
-- to an unwrapper in step (train/unwrapper.hpp).
use rubetek_ios_cpp_releases.Prelude.{
  ℕ, suc, ◌+◌, ◌-◌, ◌%◌, ◌<◌, ◌≤◌, ◌≡◌, refl, sym, ap, ◌∙◌, List, [], ◌∷◌, ◌++◌, append_assoc,
  append-nil, length, to_le, arith, length-append,
}
use rubetek_ios_cpp_releases.Prelude.Outcome.{Outcome, done, ◌>>=◌}
use rubetek_ios_cpp_releases.Train.{Block}
use rubetek_ios_cpp_releases.Train.Wrapper.{Wrapper, start_packet, pointer, add_wagon_loop}
use rubetek_ios_cpp_releases.Train.Unwrapper
use rubetek_ios_cpp_releases.Train.Unwrapper.{add_packet}
use rubetek_ios_cpp_releases.Train.Transfer.{in_step, WagonOf, none_of}
use rubetek_ios_cpp_releases.Train.Transfer.Held.{packet, Open, finished}
use rubetek_ios_cpp_releases.Train.Transfer.Taken.{length-packet}
use rubetek_ios_cpp_releases.Train.Transfer.Rounds.{at, start_idle, round_open, loop_nil}

-- What the constructor of the wrapper asks for.
pub record IsSize (size : ℕ) : Type 0 where
  pub words : size % 4 ≡ 0
  pub low : 64 ≤ size
  pub high : size ≤ 65536

-- Between two wagons: nothing is begun, or an open packet holds the blocks `bs`.
pub data Rest (size : ℕ) (q : List ℕ) (k : ℕ) (w : List ℕ) (c : ℕ) (bs : List Block) : Type 0 where
  idle : q ≡ [] → k ≡ c → w ≡ [] → bs ≡ [] → Rest size q k w c bs
  opened :
      Open w q c bs
      → k ≡ (c + 1) % 65536
      → 8 ≤ length q
      → length q % 4 ≡ 0
      → length q < size
      → Rest size q k w c bs

-- A run of the wrapper, whose packets an unwrapper in step gets: with what the open packet holds at
-- the end they are the blocks `total`.
pub record Loaded (run : Outcome (Wrapper × List (List ℕ))) (w : List ℕ) (c size : ℕ)
    (memory : List ℕ) (total : List Block) : Type 0 where
  pub q : List ℕ
  pub k : ℕ
  pub sent : List (List ℕ)
  pub w' : List ℕ
  pub c' : ℕ
  pub delivered : List Block
  pub held : List Block
  pub ran : run ≡ done (at size q memory k, sent)
  pub taken :
      (us ce pe : ℕ)
      → Unwrapper.add_all sent (in_step w c us ce pe) ≡ done (in_step w' c' us ce pe, delivered)
  pub all : delivered ++ held ≡ total
  pub counted : c' < 65536
  pub rest : Rest size q k w' c' held

-- A packet goes out first.
pub Loaded-cons :
    {run : Outcome (Wrapper × List (List ℕ))} {w w1 : List ℕ} {c c1 size : ℕ} {memory : List ℕ}
    {bs total : List Block} (x : List ℕ)
    → ((us ce pe : ℕ) → add_packet x (in_step w c us ce pe) ≡ done (in_step w1 c1 us ce pe, bs))
    → Loaded run w1 c1 size memory total
    → Loaded (run >>= λ r. done (r.0, x ∷ r.1)) w c size memory (bs ++ total)
unfolding Unwrapper.add_all
Loaded-cons {bs = bs} x h l = record {
  q = l.q;
  k = l.k;
  sent = x ∷ l.sent;
  w' = l.w';
  c' = l.c';
  delivered = bs ++ l.delivered;
  held = l.held;
  ran = rw l.ran refl;
  taken = λ us ce pe. rw (h us ce pe, l.taken us ce pe) refl;
  all = append_assoc bs l.delivered l.held ∙ ap (◌++◌ bs) l.all;
  counted = l.counted;
  rest = l.rest;
}

-- Nothing goes out, and the packet is closed.
pub Loaded-idle :
    {c size : ℕ} {memory : List ℕ} (fuel wagon_size : ℕ)
    → c < 65536
    → Loaded (add_wagon_loop fuel wagon_size [] (at size [] memory c)) [] c size memory []
unfolding Unwrapper.add_all
Loaded-idle {c = c} {size = size} {memory = memory} fuel wagon_size hc = record {
  q = [];
  k = c;
  sent = [];
  w' = [];
  c' = c;
  delivered = [];
  held = [];
  ran = loop_nil fuel wagon_size (at size [] memory c);
  taken = λ us ce pe. refl;
  all = refl;
  counted = hc;
  rest = idle refl refl refl refl;
}

-- The pointer of a packet that goes on with a wagon.
pub pointer_inside :
    (size wagon_size left : ℕ)
    → left < size - 4
    → size ≤ 65536
    → left < wagon_size
    → pointer size wagon_size left ≡ left
unfolding pointer
pointer_inside size wagon_size left h hs hw = ground arith

pub pointer_full :
    (size wagon_size left : ℕ)
    → size - 4 ≤ left
    → left < wagon_size
    → pointer size wagon_size left ≡ 0xffff
unfolding pointer
pointer_full size wagon_size left h hw = ground arith

pub pointer_start : (size wagon_size : ℕ) → pointer size wagon_size wagon_size ≡ 0
unfolding pointer
pointer_start size wagon_size = ground arith

pub packet-append : (c ptr : ℕ) (xs : List ℕ) → packet c ptr [] ++ xs ≡ packet c ptr xs
unfolding to_le
packet-append c ptr xs = refl

-- The end of a wagon fits a new packet.
pub tail_open :
    (fuel size k wagon_size : ℕ) (memory : List ℕ) (b : Block) (p left : List ℕ)
    → IsSize size
    → k < 65536
    → WagonOf b (p ++ left)
    → 4 ≤ length p
    → length p % 4 ≡ 0
    → 0 < length left
    → length left < size - 4
    → length left < wagon_size
    → Loaded
        (add_wagon_loop (suc fuel) wagon_size left (at size [] memory k))
        p
        k
        size
        memory
        (b ∷ [])
unfolding Unwrapper.add_all
tail_open fuel size k wagon_size memory b p left hs hk h hp hm hl hroom hw =
    let q : List ℕ = packet k (length left) [] in
    let ptr = pointer_inside size wagon_size (length left) hroom hs.high hw in
    let start : start_packet wagon_size (length left) (at size [] memory k)
        ≡ at size q memory ((k + 1) % 65536) =
      start_idle wagon_size (length left) size k memory
      ∙ ap (λ n. at size (packet k n []) memory ((k + 1) % 65536)) ptr in
    let short = length-packet k 0 0 0 (length left) [] in
    let long : length (q ++ left) ≡ 4 + length left = omega (arith, length-append q left, short) in
    record {
      q = q ++ left;
      k = (k + 1) % 65536;
      sent = [];
      w' = p;
      c' = k;
      delivered = [];
      held = b ∷ [];
      ran =
          round_open fuel wagon_size size ((k + 1) % 65536) left q memory (at size [] memory k)
            start hl (omega (arith, short, hs.low));
      taken = λ us ce pe. refl;
      all = refl;
      counted = hk;
      rest =
          opened
            (finished b [] left [] h hp hm hl (omega (arith, hs.high))
              (packet-append k (length left) left
                ∙ ap (packet k (length left)) (sym (append-nil left)))
              refl none_of)
            refl (omega (arith, long, h.whole, length-append p left))
            (omega (arith, long, h.whole, length-append p left)) (omega (arith, long));
    }
