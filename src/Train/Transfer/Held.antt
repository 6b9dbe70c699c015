-- ===== src/Train/Transfer/Held.antt =====
-- What an open packet of the wrapper (train/wrapper.hpp) holds, for the unwrapper that has got all
-- packets before it.
use rubetek_ios_cpp_releases.Prelude.{
  ℕ, ◌%◌, ◌<◌, ◌≤◌, ◌≡◌, refl, sym, ap, ◌∙◌, List, [], ◌∷◌, ◌++◌, append_assoc, append-nil, concat,
  length, to_le,
}
use rubetek_ios_cpp_releases.Train.{Block}
use rubetek_ios_cpp_releases.Train.Transfer.{WagonOf, WagonsOf, none_of, then_of}

-- A packet with its number and its pointer.
abbrev pub packet : ℕ → ℕ → List ℕ → List ℕ
packet c ptr body = to_le 2 c ++ (to_le 2 ptr ++ body)

-- The unwrapper is in the wagon `w`. With the packet it gets the blocks `bs`, and is then in `p`.
pub data Held (w q : List ℕ) (c : ℕ) (bs : List Block) (p : List ℕ) : Type 0 where
  begins :
      (ws : List (List ℕ))
      → w ≡ []
      → q ≡ packet c 0 (concat ws ++ p)
      → WagonsOf bs ws
      → Held w q c bs p
  finishes :
      (b : Block) (later : List Block) (r : List ℕ) (ws : List (List ℕ))
      → WagonOf b (w ++ r)
      → 4 ≤ length w
      → length w % 4 ≡ 0
      → 0 < length r
      → length r < 0xffff
      → q ≡ packet c (length r) (r ++ (concat ws ++ p))
      → bs ≡ b ∷ later
      → WagonsOf later ws
      → Held w q c bs p
  goes_on :
      (m : List ℕ)
      → 4 ≤ length w
      → length w % 4 ≡ 0
      → q ≡ packet c 0xffff m
      → bs ≡ []
      → p ≡ w ++ m
      → Held w q c bs p
  fills :
      (b : Block) (m : List ℕ)
      → WagonOf b (w ++ m)
      → 4 ≤ length w
      → length w % 4 ≡ 0
      → q ≡ packet c 0xffff m
      → bs ≡ b ∷ []
      → p ≡ []
      → Held w q c bs p

-- A packet that ends where a wagon ends, or before the first one.
pub data Open (w q : List ℕ) (c : ℕ) (bs : List Block) : Type 0 where
  begun :
      (ws : List (List ℕ)) → w ≡ [] → q ≡ packet c 0 (concat ws) → WagonsOf bs ws → Open w q c bs
  finished :
      (b : Block) (later : List Block) (r : List ℕ) (ws : List (List ℕ))
      → WagonOf b (w ++ r)
      → 4 ≤ length w
      → length w % 4 ≡ 0
      → 0 < length r
      → length r < 0xffff
      → q ≡ packet c (length r) (r ++ concat ws)
      → bs ≡ b ∷ later
      → WagonsOf later ws
      → Open w q c bs

packet-append : (c ptr : ℕ) (xs ys : List ℕ) → packet c ptr xs ++ ys ≡ packet c ptr (xs ++ ys)
unfolding to_le
packet-append c ptr xs ys = refl

-- It takes the beginning of one more wagon,
pub Open-Held :
    {w q : List ℕ} {c : ℕ} {bs : List Block} (p : List ℕ) → Open w q c bs → Held w (q ++ p) c bs p
Open-Held {c = c} p (begun ws ew eq hs) =
    begins ws ew (ap (λ l. l ++ p) eq ∙ packet-append c 0 (concat ws) p) hs
Open-Held {c = c} p (finished b later r ws h hw hn hr hf eq eb hs) =
    finishes b later r ws h hw hn hr hf
      (ap (λ l. l ++ p) eq
        ∙ packet-append c (length r) (r ++ concat ws) p
        ∙ ap (packet c (length r)) (append_assoc r (concat ws) p))
      eb hs

WagonsOf-snoc :
    {b : Block} {w : List ℕ} (bs : List Block) (ws : List (List ℕ))
    → WagonsOf bs ws
    → WagonOf b w
    → WagonsOf (bs ++ b ∷ []) (ws ++ w ∷ []) × (concat (ws ++ w ∷ []) ≡ concat ws ++ w)
WagonsOf-snoc {w = w} [] [] none_of h = (then_of h none_of, append-nil w)
WagonsOf-snoc {w = w} (b ∷ bs) (v ∷ ws) (then_of h hs) k =
    let (more, e) = WagonsOf-snoc bs ws hs k in
    (then_of h more, ap (◌++◌ v) e ∙ sym (append_assoc v (concat ws) w))
WagonsOf-snoc [] (w ∷ ws) hs h = elim hs [ ]
WagonsOf-snoc (b ∷ bs) [] hs h = elim hs [ ]

-- or a whole one.
pub Open-append :
    {w q : List ℕ} {c : ℕ} {bs : List Block} (b : Block) (x : List ℕ)
    → WagonOf b x
    → Open w q c bs
    → Open w (q ++ x) c (bs ++ b ∷ [])
Open-append {c = c} {bs = bs} b x k (begun ws ew eq hs) =
    let (more, e) = WagonsOf-snoc bs ws hs k in
    begun (ws ++ x ∷ []) ew
      (ap (λ l. l ++ x) eq ∙ packet-append c 0 (concat ws) x ∙ ap (packet c 0) (sym e)) more
Open-append {c = c} b x k (finished b' later r ws h hw hn hr hf eq eb hs) =
    let (more, e) = WagonsOf-snoc later ws hs k in
    finished b' (later ++ b ∷ []) r (ws ++ x ∷ []) h hw hn hr hf
      (ap (λ l. l ++ x) eq
        ∙ packet-append c (length r) (r ++ concat ws) x
        ∙ ap (packet c (length r)) (append_assoc r (concat ws) x ∙ ap (◌++◌ r) (sym e)))
      (ap (λ l. l ++ b ∷ []) eb) more
