-- ===== src/Base64/RoundTrip.antt =====
-- decode.hpp reads back what encode.hpp writes.
use rubetek_ios_cpp_releases.Prelude.{
  ℕ, suc, false, ◌+◌, ◌*◌, ◌/◌, ◌%◌, ◌^◌, ◌<◌, ◌≡◌, refl, ap, ◌∙◌, List, [], ◌∷◌, ◌++◌, length, All,
  IsByte, some, none, arith, ltb, ◌==◌, if◌then◌else◌,
}
use rubetek_ios_cpp_releases.Prelude.Outcome.{Outcome, done, thrown, aborted, exhausted, ◌>>=◌}
use rubetek_ios_cpp_releases.Base64.{
  encode, char_at, encode_lookup, digit, shifted, three_bytes, pad_char, end_padding, decode_from,
  decode,
}

digit-lookup : (n : ℕ) → n < 64 → digit (encode_lookup n) ≡ some n
unfolding digit encode_lookup
digit-lookup n h = ground arith

digit-pad : digit pad_char ≡ none
unfolding digit
digit-pad = refl

digit-char_at : (temp shift : ℕ) → digit (char_at temp shift) ≡ some (temp / 2 ^ shift % 64)
unfolding char_at
digit-char_at temp shift = digit-lookup (temp / 2 ^ shift % 64) (omega arith)

length-encode : (bytes : List ℕ) → length (encode bytes) % 4 ≡ 0
unfolding encode
length-encode [] = refl
length-encode (a ∷ []) = refl
length-encode (a ∷ b ∷ []) = refl
length-encode (a ∷ b ∷ c ∷ rest) = omega (arith, length-encode rest)

-- A shift keeps the low digits.
shifted-mod6 : (t d : ℕ) → d < 64 → (shifted t + d) % 2 ^ 6 ≡ d
shifted-mod6 t d h = omega arith

shifted-mod12 : (t d : ℕ) → d < 64 → (shifted t + d) % 2 ^ 12 ≡ (t % 2 ^ 6) * 64 + d
shifted-mod12 t d h = omega arith

shifted-mod18 : (t d : ℕ) → d < 64 → (shifted t + d) % 2 ^ 18 ≡ (t % 2 ^ 12) * 64 + d
shifted-mod18 t d h = omega arith

shifted-mod24 : (t d : ℕ) → d < 64 → (shifted t + d) % 2 ^ 24 ≡ (t % 2 ^ 18) * 64 + d
shifted-mod24 t d h = omega arith

abbrev next_of : ℕ → ℕ
next_of position = if position == 3 then 0 else suc position

abbrev out_of : ℕ → ℕ → List ℕ
out_of position u = if position == 3 then three_bytes u else []

decode_from-digit :
    (position t temp shift : ℕ) (cs : List ℕ)
    → decode_from position t (char_at temp shift ∷ cs) ≡ (
        decode_from (next_of position) (shifted t + temp / 2 ^ shift % 64) cs >>= λ r.
        done (out_of position (shifted t + temp / 2 ^ shift % 64) ++ r))
unfolding decode_from
decode_from-digit position t temp shift cs = rw (digit-char_at temp shift, decode_from) refl

decode_from-pad :
    (position t : ℕ) (cs : List ℕ)
    → decode_from position t (pad_char ∷ cs) ≡ end_padding (shifted t) (length cs)
unfolding decode_from digit
decode_from-pad position t cs = refl

bind-done : (m : Outcome (List ℕ)) → (m >>= λ r. done r) ≡ m
bind-done (done r) = refl
bind-done thrown = refl
bind-done aborted = refl
bind-done exhausted = refl

decode_from-inner :
    (position t temp shift : ℕ) (cs : List ℕ)
    → (position == 3) ≡ false
    → decode_from position t (char_at temp shift ∷ cs)
      ≡ decode_from (suc position) (shifted t + temp / 2 ^ shift % 64) cs
decode_from-inner position t temp shift cs h =
    decode_from-digit position t temp shift cs ∙ rw h (bind-done _)

-- `temp` behind the first two, three and four digits of a quantum.
abbrev after_two : ℕ → ℕ → ℕ
after_two t q = shifted (shifted t + q / 2 ^ 18 % 64) + q / 2 ^ 12 % 64

abbrev after_three : ℕ → ℕ → ℕ
after_three t q = shifted (after_two t q) + q / 2 ^ 6 % 64

abbrev after_four : ℕ → ℕ → ℕ
after_four t q = shifted (after_three t q) + q / 2 ^ 0 % 64

after_two-mod : (t q : ℕ) → q < 2 ^ 24 → after_two t q % 2 ^ 12 ≡ q / 2 ^ 12
after_two-mod t q h = omega (
  arith,
  shifted-mod6 t (q / 2 ^ 18 % 64) (omega arith),
  shifted-mod12 (shifted t + q / 2 ^ 18 % 64) (q / 2 ^ 12 % 64) (omega arith),
)

after_three-mod : (t q : ℕ) → q < 2 ^ 24 → after_three t q % 2 ^ 18 ≡ q / 2 ^ 6
after_three-mod t q h =
    omega (arith, after_two-mod t q h, shifted-mod18 (after_two t q) (q / 2 ^ 6 % 64) (omega arith))

after_four-mod : (t q : ℕ) → q < 2 ^ 24 → after_four t q % 2 ^ 24 ≡ q
after_four-mod t q h =
    omega
      (arith, after_three-mod t q h, shifted-mod24 (after_three t q) (q / 2 ^ 0 % 64) (omega arith))

-- A whole quantum.
decode_from-quantum :
    (t q : ℕ) (cs : List ℕ)
    → decode_from 0 t (char_at q 18 ∷ char_at q 12 ∷ char_at q 6 ∷ char_at q 0 ∷ cs)
      ≡ (decode_from 0 (after_four t q) cs >>= λ r. done (three_bytes (after_four t q) ++ r))
decode_from-quantum t q cs =
    decode_from-inner 0 t q 18 _ refl
    ∙ decode_from-inner 1 (shifted t + q / 2 ^ 18 % 64) q 12 _ refl
    ∙ decode_from-inner 2 (after_two t q) q 6 _ refl
    ∙ decode_from-digit 3 (after_three t q) q 0 cs

three_bytes-of :
    (u q : ℕ) (a b c : ℕ)
    → a < 256
    → b < 256
    → c < 256
    → q ≡ a * 2 ^ 16 + b * 2 ^ 8 + c
    → u % 2 ^ 24 ≡ q
    → three_bytes u ≡ a ∷ b ∷ c ∷ []
three_bytes-of u q a b c ha hb hc e h =
    let first : u / 2 ^ 16 % 256 ≡ a = omega arith in
    let second : u / 2 ^ 8 % 256 ≡ b = omega arith in
    let third : u % 256 ≡ c = omega arith in rw (first, second, third) refl

two_bytes-of :
    (u q : ℕ) (a b : ℕ)
    → a < 256
    → b < 256
    → q ≡ a * 2 ^ 16 + b * 2 ^ 8
    → u % 2 ^ 18 ≡ q / 2 ^ 6
    → end_padding (shifted u) 0 ≡ done (a ∷ b ∷ [])
unfolding end_padding
two_bytes-of u q a b ha hb e h =
    let first : shifted u / 2 ^ 16 % 256 ≡ a = omega arith in
    let second : shifted u / 2 ^ 8 % 256 ≡ b = omega arith in rw (first, second) refl

one_byte-of :
    (u q : ℕ) (a : ℕ)
    → a < 256
    → q ≡ a * 2 ^ 16
    → u % 2 ^ 12 ≡ q / 2 ^ 12
    → end_padding (shifted u) 1 ≡ done (a ∷ [])
unfolding end_padding
one_byte-of u q a ha e h = let first : shifted u / 2 ^ 10 % 256 ≡ a = omega arith in rw first refl

decode_from-nil : (t : ℕ) → decode_from 0 t [] ≡ done []
unfolding decode_from
decode_from-nil t = refl

-- Whatever earlier quanta left in `temp`.
decode_from-encode :
    (t : ℕ) (bytes : List ℕ) → All IsByte bytes → decode_from 0 t (encode bytes) ≡ done bytes
unfolding encode
decode_from-encode t [] h = decode_from-nil t
decode_from-encode t (a ∷ []) (ha, _) =
    let q : ℕ = a * 2 ^ 16 in
    decode_from-inner 0 t q 18 _ refl
    ∙ decode_from-inner 1 (shifted t + q / 2 ^ 18 % 64) q 12 _ refl
    ∙ decode_from-pad 2 (after_two t q) _
    ∙ one_byte-of (after_two t q) q a ha refl (after_two-mod t q (omega arith))
decode_from-encode t (a ∷ b ∷ []) (ha, (hb, _)) =
    let q : ℕ = a * 2 ^ 16 + b * 2 ^ 8 in
    decode_from-inner 0 t q 18 _ refl
    ∙ decode_from-inner 1 (shifted t + q / 2 ^ 18 % 64) q 12 _ refl
    ∙ decode_from-inner 2 (after_two t q) q 6 _ refl
    ∙ decode_from-pad 3 (after_three t q) _
    ∙ two_bytes-of (after_three t q) q a b ha hb refl (after_three-mod t q (omega arith))
decode_from-encode t (a ∷ b ∷ c ∷ rest) (ha, (hb, (hc, h))) =
    let q : ℕ = a * 2 ^ 16 + b * 2 ^ 8 + c in
    let bytes =
      three_bytes-of (after_four t q) q a b c ha hb hc refl (after_four-mod t q (omega arith)) in
    decode_from-quantum t q (encode rest)
    ∙ rw (decode_from-encode (after_four t q) rest h) (ap (λ x. done (x ++ rest)) bytes)

-- Decoding the code of any number of bytes gives them back.
pub decode-encode_base64 : (bytes : List ℕ) → All IsByte bytes → decode (encode bytes) ≡ done bytes
unfolding decode
decode-encode_base64 bytes h = rw (length-encode bytes) (decode_from-encode 0 bytes h)

-- The encoded text has exactly as many characters as the encoder reserves: four for each three
-- bytes begun.
pub encode-reserved :
    (bytes : List ℕ)
    → length (encode bytes) ≡ (length bytes / 3 + (if ltb 0 (length bytes % 3) then 1 else 0)) * 4
unfolding encode
encode-reserved [] = refl
encode-reserved (a ∷ []) = refl
encode-reserved (a ∷ b ∷ []) = refl
encode-reserved (a ∷ b ∷ c ∷ rest) =
    let quotient : suc (suc (suc (length rest))) / 3 ≡ suc (length rest / 3) = omega arith in
    let remainder : suc (suc (suc (length rest))) % 3 ≡ length rest % 3 = omega arith in
    rw (quotient, remainder, encode-reserved rest) (omega arith)
