-- ===== src/Percent/Tests.antt =====
-- Runs of percent encoding on concrete text, and its theorems at such text.
use rubetek_ios_cpp_releases.Prelude.{ℕ, ◌≤◌, ◌≡◌, refl, List, [], ◌∷◌, length, arith}
use rubetek_ios_cpp_releases.Prelude.Outcome.{done, aborted}
use rubetek_ios_cpp_releases.Percent.{decode, encode, uri_decode, uri_encode}
use rubetek_ios_cpp_releases.Percent.RoundTrip.{decode-encode, uri_decode-uri_encode}
use rubetek_ios_cpp_releases.Percent.Bounds.{uri_decode-fits}

-- "a b%"
abbrev text : List ℕ
text = 0x61 ∷ 0x20 ∷ 0x62 ∷ 0x25 ∷ []

encode-text : encode text ≡ 0x61 ∷ 0x25 ∷ 0x32 ∷ 0x30 ∷ 0x62 ∷ 0x25 ∷ 0x32 ∷ 0x35 ∷ []
unfolding encode
encode-text = refl

-- An escape that the text cuts short.
decode_short : decode (0x61 ∷ 0x25 ∷ 0x32 ∷ []) ≡ aborted
unfolding decode
decode_short = refl

uri_decode_short : uri_decode (0x61 ∷ 0x25 ∷ 0x32 ∷ []) ≡ 0x61 ∷ 0x25 ∷ 0x32 ∷ []
unfolding uri_decode
uri_decode_short = refl

decode-encode_example : decode (encode text) ≡ done text
decode-encode_example =
    decode-encode text (omega arith, (omega arith, (omega arith, (omega arith, tt))))

uri_decode-uri_encode_example : uri_decode (uri_encode text) ≡ text
uri_decode-uri_encode_example =
    uri_decode-uri_encode text (omega arith, (omega arith, (omega arith, (omega arith, tt))))

uri_decode-fits_example : length (uri_decode (0x25 ∷ 0x32 ∷ 0x30 ∷ [])) ≤ 3
uri_decode-fits_example = uri_decode-fits (0x25 ∷ 0x32 ∷ 0x30 ∷ [])
