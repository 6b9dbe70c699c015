-- ===== src/Spp/Framing.antt =====
-- What the frames of pack.hpp and the parser of unpack.hpp do to one another.
use rubetek_ios_cpp_releases.Prelude.{
  ℕ, ◌+◌, ◌^◌, ◌≤◌, ◌<◌, ◌≡◌, refl, sym, ap, ◌∙◌, List, [], ◌∷◌, ◌++◌, append_assoc, length, take,
  drop, to_le, of_le, arith, le→ltb, length-append, length-to_le, of_le-to_le, take-append_eq,
  drop-append_eq, take-append_le, drop-append_le, length-drop,
}
use rubetek_ios_cpp_releases.Spp.{no_error, unpack_one}

-- One frame as the packers write it.
abbrev pub frame : ℕ → List ℕ → List ℕ
frame w block = to_le w (length block) ++ block

abbrev pub frames : ℕ → List (List ℕ) → List ℕ
frames w [] = []
frames w (b ∷ bs) = frame w b ++ frames w bs

abbrev pub Fits : ℕ → List ℕ → Type 0
Fits w block = length block < 256 ^ w

pub length-frame : (w : ℕ) (b : List ℕ) → length (frame w b) ≡ w + length b
length-frame w b = omega (arith, length-append (to_le w (length b)) b, length-to_le w (length b))

-- The payload length that the header at the front of `p` announces.
abbrev pub announced : ℕ → List ℕ → ℕ
announced w p = of_le (take w p)

pub unpack_one_whole :
    (w : ℕ) (p : List ℕ)
    → w ≤ length p
    → w + announced w p ≤ length p
    → unpack_one w p ≡ (take (announced w p) (drop w p), drop (announced w p) (drop w p), no_error)
unfolding unpack_one
unpack_one_whole w p h k = rw (le→ltb _ _ h, le→ltb _ _ k) refl

pub unpack_one_inv :
    (w : ℕ) (p pkt rest : List ℕ)
    → unpack_one w p ≡ (pkt, rest, no_error)
    → (w ≤ length p)
      × (w + announced w p ≤ length p)
      × (take (announced w p) (drop w p) ≡ pkt)
      × (drop (announced w p) (drop w p) ≡ rest)
unfolding unpack_one
unpack_one_inv w p pkt rest e = ground arith

pub unpack_one-frame :
    (w : ℕ) (block rest : List ℕ)
    → Fits w block
    → unpack_one w (frame w block ++ rest) ≡ (block, rest, no_error)
unpack_one-frame w block rest h =
    let p : List ℕ = frame w block ++ rest in
    let e₁ : p ≡ to_le w (length block) ++ (block ++ rest) =
      append_assoc (to_le w (length block)) block rest in
    let header : take w p ≡ to_le w (length block) =
      rw e₁ (take-append_eq w _ (block ++ rest) (sym (length-to_le w (length block)))) in
    let body : drop w p ≡ block ++ rest =
      rw e₁ (drop-append_eq w _ (block ++ rest) (sym (length-to_le w (length block)))) in
    let len : announced w p ≡ length block = ap of_le header ∙ of_le-to_le w (length block) h in
    let size : length p ≡ w + length block + length rest =
      length-append (frame w block) rest ∙ ap (λ n. n + length rest) (length-frame w block) in
    unpack_one_whole w p (omega arith) (omega arith)
    ∙ rw (len, body)
        (cc (
          take-append_eq (length block) block rest refl,
          drop-append_eq (length block) block rest refl,
        ))

-- More input behind a whole packet joins the rest.
pub unpack_one-append :
    (w : ℕ) (p q pkt rest : List ℕ)
    → unpack_one w p ≡ (pkt, rest, no_error)
    → unpack_one w (p ++ q) ≡ (pkt, rest ++ q, no_error)
unpack_one-append w p q pkt rest e =
    let (h, k, ep, er) = unpack_one_inv w p pkt rest e in
    let len : announced w (p ++ q) ≡ announced w p = ap of_le (take-append_le w p q h) in
    let body : drop w (p ++ q) ≡ drop w p ++ q = drop-append_le w p q h in
    let size = length-append p q in
    let room : announced w p ≤ length (drop w p) = omega (arith, length-drop w p) in
    unpack_one_whole w (p ++ q) (omega arith) (omega arith)
    ∙ rw (len, body)
        (cc (
          ep,
          er,
          take-append_le (announced w p) (drop w p) q room,
          drop-append_le (announced w p) (drop w p) q room,
        ))
