-- ===== src/Base64.antt =====
-- libnet/dawn/code/base64: encode.hpp and decode.hpp. A string is the list of its characters' codes.
pub mod RoundTrip
mod Tests
use rubetek_ios_cpp_releases.Prelude.{
  ℕ, zero, suc, ◌+◌, ◌-◌, ◌*◌, ◌/◌, ◌%◌, ◌^◌, ◌&&◌, List, [], ◌∷◌, ◌++◌, length, Option, none, some,
  ltb, leb, ◌==◌, if◌then◌else◌,
}
use rubetek_ios_cpp_releases.Prelude.Outcome.{Outcome, done, thrown, ◌>>=◌}

abbrev pub pad_char : ℕ
pad_char = 0x3d

-- encodeLookup: "A" to "Z", "a" to "z", "0" to "9", "+", "/".
unfoldable pub encode_lookup : ℕ → ℕ
encode_lookup n =
    if ltb n 26
    then 0x41 + n
    else (if ltb n 52
        then 0x47 + n
        else (if ltb n 62 then n - 4 else (if n == 62 then 0x2b else 0x2f)))

-- The characters of a 24-bit quantum, each the masked and shifted bits.
unfoldable pub char_at : ℕ → ℕ → ℕ
unfolding encode_lookup
char_at temp shift = encode_lookup (temp / 2 ^ shift % 64)

-- The loop over the whole triples, and the switch on what is left.
unfoldable pub encode : List ℕ → List ℕ
unfolding char_at
encode [] = []
encode (a ∷ []) =
    let temp = a * 2 ^ 16 in char_at temp 18 ∷ char_at temp 12 ∷ pad_char ∷ pad_char ∷ []
encode (a ∷ b ∷ []) =
    let temp = a * 2 ^ 16 + b * 2 ^ 8 in
    char_at temp 18 ∷ char_at temp 12 ∷ char_at temp 6 ∷ pad_char ∷ []
encode (a ∷ b ∷ c ∷ rest) =
    let temp = a * 2 ^ 16 + b * 2 ^ 8 + c in
    char_at temp 18 ∷ char_at temp 12 ∷ char_at temp 6 ∷ char_at temp 0 ∷ encode rest

-- What the loop adds to `temp` for a character; none for one that is no digit.
unfoldable pub digit : ℕ → Option ℕ
digit c =
    if leb 0x41 c && leb c 0x5a
    then some (c - 0x41)
    else (if leb 0x61 c && leb c 0x7a
        then some (c - 0x47)
        else (if leb 0x30 c && leb c 0x39
            then some (c + 4)
            else (if c == 0x2b then some 0x3e else (if c == 0x2f then some 0x3f else none))))

-- `temp <<= 6` on 32 bits; the low bits are then 0, so that `|=` of a digit is addition.
abbrev pub shifted : ℕ → ℕ
shifted temp = temp * 64 % 2 ^ 32

-- The bytes at the end of a quantum.
abbrev pub three_bytes : ℕ → List ℕ
three_bytes temp = temp / 2 ^ 16 % 256 ∷ temp / 2 ^ 8 % 256 ∷ temp % 256 ∷ []

-- The switch at a padding character, by the number of characters behind it.
unfoldable pub end_padding : ℕ → ℕ → Outcome (List ℕ)
end_padding temp zero = done (temp / 2 ^ 16 % 256 ∷ temp / 2 ^ 8 % 256 ∷ [])
end_padding temp (suc zero) = done (temp / 2 ^ 10 % 256 ∷ [])
end_padding temp (suc (suc n)) = thrown

-- Both loops, from a position in the quantum. `temp` is not cleared between two quanta.
unfoldable pub decode_from : ℕ → ℕ → List ℕ → Outcome (List ℕ)
unfolding digit end_padding
decode_from position temp [] = done []
decode_from position temp (c ∷ cs) = elim (digit c) [
  | some d ↦
      let u = shifted temp + d in
      let bytes = if position == 3 then three_bytes u else [] in
      let next = if position == 3 then 0 else suc position in
      decode_from next u cs >>= λ r. done (bytes ++ r)
  | none ↦ if c == pad_char then end_padding (shifted temp) (length cs) else thrown
]

-- `padding` in the source only sizes the vector's memory.
unfoldable pub decode : List ℕ → Outcome (List ℕ)
unfolding decode_from
decode input = if length input % 4 == 0 then decode_from 0 0 input else thrown
