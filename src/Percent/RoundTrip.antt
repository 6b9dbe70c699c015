-- ===== src/Percent/RoundTrip.antt =====
-- Both decoders of percent_encoding read back what its encoder writes.
use rubetek_ios_cpp_releases.Prelude.{
  ℕ, ◌+◌, ◌*◌, ◌/◌, ◌%◌, ◌<◌, ◌≡◌, refl, ap, ◌∙◌, inl, inr, true, false, List, [], ◌∷◌, All, IsByte,
  some, arith, ◌==◌, Bool-cases,
}
use rubetek_ios_cpp_releases.Prelude.Outcome.{done, ◌>>=◌}
use rubetek_ios_cpp_releases.Percent.{
  percent, letter_to_hex, decode, hex2dec, escape, uri_decode, is_safe, dec2hex, uri_encode, encode,
}

letter_to_hex-dec2hex : (n : ℕ) → n < 16 → letter_to_hex (dec2hex n) ≡ n
unfolding letter_to_hex dec2hex
letter_to_hex-dec2hex n h = ground arith

hex2dec-dec2hex : (n : ℕ) → n < 16 → hex2dec (dec2hex n) ≡ some n
unfolding hex2dec dec2hex
hex2dec-dec2hex n h = ground arith

-- A safe character is neither a percent sign nor a plus.
safe-plain : (c : ℕ) → is_safe c ≡ true → ((c == percent) ≡ false) × ((c == 0x2b) ≡ false)
unfolding is_safe
safe-plain c h = (ground arith, ground arith)

-- One character, followed by whatever follows.
decode-plain :
    (c : ℕ) (cs : List ℕ)
    → (c == percent) ≡ false
    → (c == 0x2b) ≡ false
    → decode (c ∷ cs) ≡ (decode cs >>= λ r. done (c ∷ r))
unfolding decode
decode-plain c [] h k = rw (h, k) refl
decode-plain c (d ∷ []) h k = rw (h, k) refl
decode-plain c (d ∷ e ∷ rest) h k = rw (h, k) refl

uri_decode-plain :
    (c : ℕ) (cs : List ℕ) → (c == percent) ≡ false → uri_decode (c ∷ cs) ≡ c ∷ uri_decode cs
unfolding uri_decode
uri_decode-plain c [] h = refl
uri_decode-plain c (d ∷ []) h = refl
uri_decode-plain c (d ∷ e ∷ rest) h = rw h refl

escape-dec2hex : (c : ℕ) → c < 256 → escape (dec2hex (c / 16)) (dec2hex (c % 16)) ≡ some c
unfolding escape
escape-dec2hex c h =
    let whole : c / 16 * 16 + c % 16 ≡ c = omega arith in
    rw (hex2dec-dec2hex (c / 16) (omega arith), hex2dec-dec2hex (c % 16) (omega arith), escape)
      (ap some whole)

-- `decode` gives back the bytes that were encoded, and meets no escape that is cut short.
pub decode-encode : (cs : List ℕ) → All IsByte cs → decode (encode cs) ≡ done cs
unfolding encode uri_encode decode
decode-encode [] h = refl
decode-encode (c ∷ cs) (hc, h) = elim (Bool-cases (is_safe c)) [
  | inl s ↦ rw s (
      decode-plain c (uri_encode cs) (safe-plain c s).0 (safe-plain c s).1
      ∙ rw (decode-encode cs h) refl)
  | inr s ↦
      let high = letter_to_hex-dec2hex (c / 16) (omega arith) in
      let low = letter_to_hex-dec2hex (c % 16) (omega arith) in
      let whole : (0x10 * (c / 16) + c % 16) % 256 ≡ c = omega arith in
      rw (s, high, low, decode-encode cs h, whole) refl
]

-- UriDecode gives back the bytes that UriEncode has encoded.
pub uri_decode-uri_encode : (cs : List ℕ) → All IsByte cs → uri_decode (uri_encode cs) ≡ cs
unfolding uri_encode uri_decode
uri_decode-uri_encode [] h = refl
uri_decode-uri_encode (c ∷ cs) (hc, h) = elim (Bool-cases (is_safe c)) [
  | inl s ↦ rw s (
      uri_decode-plain c (uri_encode cs) (safe-plain c s).0
      ∙ ap (◌∷◌ c) (uri_decode-uri_encode cs h))
  | inr s ↦ rw (s, escape-dec2hex c hc) (ap (◌∷◌ c) (uri_decode-uri_encode cs h))
]
