-- ===== src/Spp/Sized.antt =====
-- The overloads of pack.hpp and unpack.hpp for the three widths of the length field.
use rubetek_ios_cpp_releases.Prelude.{
  ℕ, ◌≡◌, refl, false, List, [], ◌++◌, length, ltb, le→ltb, arith,
}
use rubetek_ios_cpp_releases.Prelude.Outcome.{Outcome, done}
use rubetek_ios_cpp_releases.Spp.{
  UnpackError, no_error, max_size, pack, unpack_one, unpack_one_or_throw, unpack, unpack_or_throw,
}
use rubetek_ios_cpp_releases.Spp.Framing.{Fits, frame, unpack_one-frame}

-- byte, wbyte and qbyte
pub data Width : Type 0 where
  w8 w16 w32 : Width

unfoldable pub bytes_of : Width → ℕ
bytes_of w8 = 1
bytes_of w16 = 2
bytes_of w32 = 4

-- pack_8, pack_16 and pack_32: behind what a buffer holds, and into a new one.
unfoldable pub pack_sized : Width → List ℕ → List ℕ → Outcome (List ℕ)
unfolding bytes_of pack
pack_sized n buf block = pack (bytes_of n) buf block

unfoldable pub pack_new : Width → List ℕ → Outcome (List ℕ)
unfolding pack_sized
pack_new n block = pack_sized n [] block

-- unpack_one_8, unpack_one_16 and unpack_one_32, with the error returned or thrown.
unfoldable pub unpack_one_sized : Width → List ℕ → List ℕ × List ℕ × UnpackError
unfolding bytes_of unpack_one
unpack_one_sized n packets = unpack_one (bytes_of n) packets

unfoldable pub unpack_one_sized_or_throw : Width → List ℕ → Outcome (List ℕ × List ℕ)
unfolding bytes_of unpack_one_or_throw
unpack_one_sized_or_throw n packets = unpack_one_or_throw (bytes_of n) packets

-- unpack_8, unpack_16 and unpack_32, likewise.
unfoldable pub unpack_sized : Width → List ℕ → Outcome (List (List ℕ) × UnpackError)
unfolding bytes_of unpack
unpack_sized n packets = unpack (bytes_of n) packets

unfoldable pub unpack_sized_or_throw : Width → List ℕ → Outcome (List (List ℕ))
unfolding bytes_of unpack_or_throw
unpack_sized_or_throw n packets = unpack_or_throw (bytes_of n) packets

-- At each width, a block that the length field can count is packed, and unpacking the result, with
-- anything behind it, gives the block and leaves the rest, by both overloads.
pub unpack_one-pack_new :
    (n : Width) (block rest : List ℕ)
    → Fits (bytes_of n) block
    → (p : List ℕ) × (pack_new n block ≡ done p)
      × (unpack_one_sized n (p ++ rest) ≡ (block, rest, no_error))
      × (unpack_one_sized_or_throw n (p ++ rest) ≡ done (block, rest))
unfolding pack_new pack_sized unpack_one_sized unpack_one_sized_or_throw unpack_one_or_throw pack
unpack_one-pack_new n block rest h =
    let w : ℕ = bytes_of n in
    let fits : ltb (max_size w) (length block) ≡ false = le→ltb _ _ (omega arith) in
    let one = unpack_one-frame w block rest h in (frame w block, rw fits refl, one, rw one refl)
