-- ===== src/Percent.antt =====
-- libnet/dawn/code/percent_encoding: decode.hpp and encode.hpp. A string is the list of its
-- characters' codes.
pub mod RoundTrip
pub mod Bounds
mod Tests
use rubetek_ios_cpp_releases.Prelude.{
  ℕ, zero, suc, ◌+◌, ◌-◌, ◌*◌, ◌/◌, ◌%◌, ◌&&◌, ◌||◌, Bool, List, [], ◌∷◌, ◌++◌, length, Option,
  none, some, ltb, leb, ◌==◌, if◌then◌else◌,
}
use rubetek_ios_cpp_releases.Prelude.Outcome.{Outcome, done, aborted, ◌>>=◌}

abbrev pub percent : ℕ
percent = 0x25

abbrev pub between : ℕ → ℕ → ℕ → Bool
between low c high = leb low c && leb c high

-- 0 for a character that is no hexadecimal digit.
unfoldable pub letter_to_hex : ℕ → ℕ
letter_to_hex c =
    if between 0x30 c 0x39
    then c - 0x30
    else (if between 0x61 c 0x66
        then c + 10 - 0x61
        else (if between 0x41 c 0x46 then c + 10 - 0x41 else 0))

-- Two escape digits are read without a test for the end: `aborted` stands for the read behind it.
unfoldable pub decode : List ℕ → Outcome (List ℕ)
unfolding letter_to_hex
decode [] = done []
decode (c ∷ []) = if c == percent then aborted else done ((if c == 0x2b then 0x20 else c) ∷ [])
decode (c ∷ d ∷ []) =
    let rest = decode (d ∷ []) in
    if c == percent then aborted else (rest >>= λ r. done ((if c == 0x2b then 0x20 else c) ∷ r))
decode (c ∷ d ∷ e ∷ rest) =
    let escaped = decode rest in
    let plain = decode (d ∷ e ∷ rest) in
    if c == percent
    then (escaped >>= λ r. done ((0x10 * letter_to_hex d + letter_to_hex e) % 256 ∷ r))
    else (plain >>= λ r. done ((if c == 0x2b then 0x20 else c) ∷ r))

-- The table HEX2DEC, with none for its -1.
unfoldable pub hex2dec : ℕ → Option ℕ
hex2dec c =
    if between 0x30 c 0x39
    then some (c - 0x30)
    else (if between 0x41 c 0x46
        then some (c - 0x41 + 10)
        else (if between 0x61 c 0x66 then some (c - 0x61 + 10) else none))

-- The code of a whole escape: none where one of the two characters is no digit.
unfoldable pub escape : ℕ → ℕ → Option ℕ
unfolding hex2dec
escape d e = elim (hex2dec d) [
  | some high ↦ elim (hex2dec e) [ some low ↦ some (high * 16 + low) | none ↦ none ]
  | none ↦ none
]

-- Both loops: an escape needs two characters behind it, else the percent sign is copied.
unfoldable pub uri_decode : List ℕ → List ℕ
unfolding escape
uri_decode [] = []
uri_decode (c ∷ []) = c ∷ []
uri_decode (c ∷ d ∷ []) = c ∷ d ∷ []
uri_decode (c ∷ d ∷ e ∷ rest) =
    let plain = c ∷ uri_decode (d ∷ e ∷ rest) in
    let escaped = uri_decode rest in
    if c == percent then elim (escape d e) [ some v ↦ v ∷ escaped | none ↦ plain ] else plain

-- The table SAFE.
unfoldable pub is_safe : ℕ → Bool
is_safe c = between 0x30 c 0x39 || between 0x41 c 0x5a || between 0x61 c 0x7a

-- DEC2HEX
unfoldable pub dec2hex : ℕ → ℕ
dec2hex n = if ltb n 10 then 0x30 + n else 0x37 + n

unfoldable pub uri_encode : List ℕ → List ℕ
unfolding is_safe dec2hex
uri_encode [] = []
uri_encode (c ∷ cs) =
    if is_safe c
    then c ∷ uri_encode cs
    else percent ∷ dec2hex (c / 16) ∷ dec2hex (c % 16) ∷ uri_encode cs

-- encode is UriEncode.
unfoldable pub encode : List ℕ → List ℕ
unfolding uri_encode
encode src = uri_encode src
