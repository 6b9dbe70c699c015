-- ===== src/Base64/Tests.antt =====
-- Runs of Base64 on concrete bytes, and its theorems at such bytes.
use rubetek_ios_cpp_releases.Prelude.{ℕ, ◌≡◌, refl, List, [], ◌∷◌, length, arith}
use rubetek_ios_cpp_releases.Prelude.Outcome.{done, thrown}
use rubetek_ios_cpp_releases.Base64.{decode, encode}
use rubetek_ios_cpp_releases.Base64.RoundTrip.{decode-encode_base64, encode-reserved}

-- "Mandy", whose code is "TWFuZHk=".
abbrev mandy : List ℕ
mandy = 0x4d ∷ 0x61 ∷ 0x6e ∷ 0x64 ∷ 0x79 ∷ []

encode-mandy : encode mandy ≡ 0x54 ∷ 0x57 ∷ 0x46 ∷ 0x75 ∷ 0x5a ∷ 0x48 ∷ 0x6b ∷ 0x3d ∷ []
unfolding encode
encode-mandy = refl

-- A padding character with three characters behind it.
decode_early_padding : decode (0x3d ∷ 0x54 ∷ 0x54 ∷ 0x54 ∷ []) ≡ thrown
unfolding decode
decode_early_padding = refl

decode-encode_base64_example : decode (encode mandy) ≡ done mandy
decode-encode_base64_example =
    decode-encode_base64 mandy
      (omega arith, (omega arith, (omega arith, (omega arith, (omega arith, tt)))))

encode-reserved_example : length (encode mandy) ≡ 8
encode-reserved_example = encode-reserved mandy
