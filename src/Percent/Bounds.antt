-- ===== src/Percent/Bounds.antt =====
-- The arrays that UriDecode and UriEncode allocate are large enough (encode.hpp).
use rubetek_ios_cpp_releases.Prelude.{
  ℕ, ◌*◌, ◌≤◌, inl, inr, List, [], ◌∷◌, length, Option-cases, arith, ◌==◌, Bool-cases,
}
use rubetek_ios_cpp_releases.Percent.{percent, escape, uri_decode, is_safe, uri_encode}

-- UriDecode writes at most as many characters as it reads, so that they fit the SRC_LEN characters
-- of `pStart`.
pub uri_decode-fits : (s : List ℕ) → length (uri_decode s) ≤ length s
unfolding uri_decode
uri_decode-fits [] = omega arith
uri_decode-fits (c ∷ []) = omega arith
uri_decode-fits (c ∷ d ∷ []) = omega arith
uri_decode-fits (c ∷ d ∷ e ∷ rest) =
    let plain = uri_decode-fits (d ∷ e ∷ rest) in
    let escaped = uri_decode-fits rest in
    elim (Bool-cases (c == percent)) [
      | inl h ↦ elim (Option-cases (escape d e)) [
        | inl k ↦ rw (h, k) (omega (arith, plain))
        | inr (v, k) ↦ rw (h, k) (omega (arith, escaped))
      ]
      | inr h ↦ rw h (omega (arith, plain))
    ]

-- UriEncode writes at most three characters for each that it reads, so that they fit the SRC_LEN *
-- 3 characters of `pStart`.
uri_encode-fits : (s : List ℕ) → length (uri_encode s) ≤ length s * 3
unfolding uri_encode
uri_encode-fits [] = omega arith
uri_encode-fits (c ∷ cs) =
    let rest = uri_encode-fits cs in
    elim (Bool-cases (is_safe c)) [
      | inl h ↦ rw h (omega (arith, rest))
      | inr h ↦ rw h (omega (arith, rest))
    ]
