-- ===== src/Spp/Accum/Gathering.antt =====
-- What the accumulating packer (msw/proto/spp/accum_packer.hpp) has gathered and sent.
use rubetek_ios_cpp_releases.Prelude.{
  ℕ, ◌^◌, ◌≤◌, ◌<◌, ◌≡◌, refl, sym, ap, ◌∙◌, inl, inr, false, List, [], ◌∷◌, ◌++◌, append_assoc,
  append-nil, length, All, concat, arith, is_empty, if◌then◌else◌, map, length-append, le→ltb,
  Bool-cases,
}
use rubetek_ios_cpp_releases.Prelude.Outcome.{done}
use rubetek_ios_cpp_releases.Spp.{max_size}
use rubetek_ios_cpp_releases.Spp.Framing.{frame, frames, length-frame}
use rubetek_ios_cpp_releases.Spp.Packer.{Packer, offset}
use rubetek_ios_cpp_releases.Spp.Packer
use rubetek_ios_cpp_releases.Spp.Packer.Blocks.{started}
use rubetek_ios_cpp_releases.Spp.Accum.{construct, total_size_of_blocks}

pub total_size_of_blocks-concat :
    (bs : List (List ℕ)) → total_size_of_blocks bs ≡ length (concat bs)
unfolding total_size_of_blocks
total_size_of_blocks-concat [] = refl
total_size_of_blocks-concat (b ∷ bs) =
    omega (arith, total_size_of_blocks-concat bs, length-append b (concat bs))

-- The contents of a buffer that gathers the packets `cs`.
abbrev pub gathered : ℕ → List ℕ → List (List ℕ) → List ℕ
gathered w front [] = []
gathered w front (c ∷ cs) = front ++ frames w (c ∷ cs)

-- What the packer has done with the packets so far: `groups` have been sent, a packet for each
-- group, and `cs` are gathered.
pub record IsGathering (w limit : ℕ) (front : List ℕ) (groups : List (List (List ℕ)))
    (cs : List (List ℕ)) (p : Packer) : Type 0 where
  pub fronts : p.front ≡ front
  pub limits : p.capacity ≡ limit
  pub holds : p.buf ≡ gathered w front cs
  pub within : length p.buf ≤ limit
  pub sends : p.sent ≡ map (gathered w front) groups
  pub bounds : All (λ (pkt : List ℕ). length pkt ≤ limit) p.sent
  pub busy : All (λ (g : List (List ℕ)). 0 < length g) groups

frames-append : (w : ℕ) (bs cs : List (List ℕ)) → frames w (bs ++ cs) ≡ frames w bs ++ frames w cs
frames-append w [] cs = refl
frames-append w (b ∷ bs) cs =
    ap (◌++◌ (frame w b)) (frames-append w bs cs)
    ∙ sym (append_assoc (frame w b) (frames w bs) (frames w cs))

pub construct-IsGathering :
    (w : ℕ) (front : List ℕ) (limit : ℕ)
    → limit < 256 ^ w
    → (p : Packer) × (construct w front limit ≡ done p) × IsGathering w limit front [] [] p
unfolding construct Packer.init
construct-IsGathering w front limit h = (
  Packer.init front limit,
  rw (le→ltb (max_size w) limit (omega arith)),
  record {
    fronts = refl;
    limits = refl;
    holds = refl;
    within = omega arith;
    sends = refl;
    bounds = tt;
    busy = tt;
  },
)

pub buf_not_empty :
    (w : ℕ) (front c : List ℕ) (cs : List (List ℕ)) (p : Packer)
    → 0 < w
    → p.buf ≡ gathered w front (c ∷ cs)
    → is_empty p.buf ≡ false
buf_not_empty w front c cs p hw h = filled p.buf refl
  where
    filled : (xs : List ℕ) → p.buf ≡ xs → is_empty xs ≡ false
    filled [] e = absurd (
        omega (
          arith,
          ap length (sym e ∙ h),
          length-append front (frames w (c ∷ cs)),
          length-append (frame w c) (frames w cs),
          length-frame w c,
        ))
    filled (x ∷ xs) e = refl

pub started_from :
    (w : ℕ) (front : List ℕ) (cs : List (List ℕ)) (p : Packer)
    → 0 < w
    → p.front ≡ front
    → p.buf ≡ gathered w front cs
    → started p ≡ front ++ frames w cs
started_from w front [] p hw f h = rw h (f ∙ sym (append-nil front))
started_from w front (c ∷ cs) p hw f h = rw (buf_not_empty w front c cs p hw h) h

pub gathered-append :
    (w : ℕ) (front : List ℕ) (cs : List (List ℕ)) (c : List ℕ)
    → (front ++ frames w cs) ++ frame w c ≡ gathered w front (cs ++ c ∷ [])
gathered-append w front [] c = rw (append-nil, append-nil)
gathered-append w front (d ∷ cs) c =
    append_assoc front (frames w (d ∷ cs)) (frame w c)
    ∙ ap (◌++◌ front) (rw (frames-append w (d ∷ cs) (c ∷ []), append-nil (frame w c)))

pub used_started :
    (p : Packer) → (if is_empty p.buf then offset p else length p.buf) ≡ length (started p)
unfolding Packer.offset
used_started p = elim (Bool-cases (is_empty p.buf)) [ inl e ↦ rw e | inr e ↦ rw e ]
