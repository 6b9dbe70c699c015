-- ===== src/Train/Transfer/Wagon.antt =====
-- The unwrapper (unload_wagon in train/unwrapper.hpp) reads the wagons that the wrapper (add_block
-- in train/wrapper.hpp) writes.
use rubetek_ios_cpp_releases.Prelude.{
  ℕ, ◌+◌, ◌*◌, ◌-◌, ◌/◌, ◌%◌, ◌^◌, ◌<◌, ◌≤◌, ◌≡◌, refl, ap, ◌∙◌, true, false, List, [], ◌∷◌, ◌++◌,
  length, take, drop, of_le, to_le, of_le-to_le, arith, ltb, length-append, take-append_eq, le→ltb,
}
use rubetek_ios_cpp_releases.Train.{Block}
use rubetek_ios_cpp_releases.Train.Wrapper.{wagon_header, mod_back}
use rubetek_ios_cpp_releases.Train.Unwrapper.{fit_in_words, unload_wagon}
use rubetek_ios_cpp_releases.Train.Transfer.{in_step, WagonOf, IsSendable}

of_two : (n : ℕ) → n < 2 ^ 16 → n % 256 + 256 * (n / 256 % 256 + 256 * 0) ≡ n
of_two n h = omega arith

wagon_words : (n : ℕ) → n ≤ 65520 → 12 + (n + mod_back n 4) ≡ 4 * (fit_in_words (n + 8) + 1)
unfolding mod_back
wagon_words n h = ground arith

-- Reading the length field back.
length_field :
    (b : Block) (rest : List ℕ)
    → length b.bytes ≤ 65520
    → of_le (take 2 (wagon_header b ++ rest)) ≡ length b.bytes + 8
unfolding wagon_header to_le of_le
length_field b rest h = omega arith

same_block :
    (b : Block) (bytes : List ℕ) (pid lid ext : ℕ)
    → bytes ≡ b.bytes
    → pid ≡ b.pid
    → lid ≡ b.lid
    → ext ≡ b.ext
    → Path Block (record { bytes = bytes; pid = pid; lid = lid; ext = ext }) b
same_block b bytes pid lid ext hb hp hl he = rw (hb, hp, hl, he) refl

pid_field :
    (b : Block) (rest : List ℕ)
    → b.pid < 2 ^ 32
    → of_le (take 4 (drop 4 (wagon_header b ++ rest))) ≡ b.pid
unfolding wagon_header to_le
pid_field b rest h = of_le-to_le 4 b.pid h

lid_field :
    (b : Block) (rest : List ℕ)
    → b.lid < 2 ^ 32
    → of_le (take 4 (drop 8 (wagon_header b ++ rest))) ≡ b.lid
unfolding wagon_header to_le
lid_field b rest h = of_le-to_le 4 b.lid h

ext_field :
    (b : Block) (rest : List ℕ)
    → b.ext < 2 ^ 16
    → of_le (take 2 (drop 2 (wagon_header b ++ rest))) ≡ b.ext
unfolding wagon_header to_le
ext_field b rest h = of_le-to_le 2 b.ext h

behind_header : (b : Block) (rest : List ℕ) → drop 12 (wagon_header b ++ rest) ≡ rest
unfolding wagon_header to_le
behind_header b rest = refl

length-wagon_header : (b : Block) → length (wagon_header b) ≡ 12
unfolding wagon_header to_le
length-wagon_header b = refl

-- The size in bytes and what the header announces.
sizes :
    (b : Block) (padding : List ℕ)
    → IsSendable b
    → length padding ≡ mod_back (length b.bytes) 4
    → length (wagon_header b ++ (b.bytes ++ padding)) ≡ 4 * (fit_in_words (length b.bytes + 8) + 1)
sizes b padding h hp = omega (
  arith,
  length-append (wagon_header b) (b.bytes ++ padding),
  length-append b.bytes padding,
  length-wagon_header b,
  hp,
  wagon_words (length b.bytes) h.small,
)

fit_in-bounds : (n : ℕ) → n ≤ 65520 → (2 ≤ fit_in_words (n + 8)) × (fit_in_words (n + 8) ≤ 16383)
fit_in-bounds n h = ground arith

pub wagon-WagonOf :
    (b : Block) (padding : List ℕ)
    → IsSendable b
    → length padding ≡ mod_back (length b.bytes) 4
    → WagonOf b (wagon_header b ++ (b.bytes ++ padding))
unfolding unload_wagon
wagon-WagonOf b padding h hp =
    let n : ℕ = length b.bytes in
    let rest : List ℕ = b.bytes ++ padding in
    let w : List ℕ = wagon_header b ++ rest in
    let len : of_le (take 2 w) ≡ n + 8 = length_field b rest h.small in
    let (low, high) = fit_in-bounds n h.small in
    let size = sizes b padding h hp in
    let enough : ltb (length w / 4) 3 ≡ false = le→ltb _ _ (omega (arith, size)) in
    let long : ltb (n + 8) 8 ≡ false = le→ltb _ _ (omega arith) in
    let there : ltb (length (drop 12 w)) (n + 8 - 8) ≡ false =
      le→ltb _ _ (omega (arith, length-append b.bytes padding, ap length (behind_header b rest))) in
    let bytes : take (n + 8 - 8) (drop 12 w) ≡ b.bytes =
      ap (take (n + 8 - 8)) (behind_header b rest)
      ∙ take-append_eq (n + 8 - 8) b.bytes padding (omega arith) in
    record {
      whole = rw len size;
      headed = rw len low;
      fits = rw len high;
      unloads = λ c us ce pe.
          rw (len, enough, long, there)
            (ap (λ x. (in_step [] c us ce pe, x ∷ [], true))
              (same_block b _ _ _ _ bytes (pid_field b rest h.pid_fits)
                (lid_field b rest h.lid_fits) (ext_field b rest h.ext_fits)));
    }
