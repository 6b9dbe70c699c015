-- ===== src/Spp/Accum/Laws.antt =====
-- Gathered packets are sent whole, in order, and within the limit.
use mathlib.Core.List.{map-append}
use rubetek_ios_cpp_releases.Prelude.{
  ℕ, suc, ◌+◌, ◌^◌, ◌≤◌, ◌<◌, ◌≡◌, refl, sym, ap, ◌∙◌, inl, inr, true, false, List, [], ◌∷◌, ◌++◌,
  append_assoc, append-nil, length, All, All-append, concat, concat-append, arith, is_empty, ltb,
  map, length-append, le→ltb, lt→ltb, ltb→le, Bool-cases,
}
use rubetek_ios_cpp_releases.Prelude.Outcome.{done, thrown}
use rubetek_ios_cpp_releases.Spp.Framing.{frame, frames, length-frame}
use rubetek_ios_cpp_releases.Spp.Packer.{Packer, offset}
use rubetek_ios_cpp_releases.Spp.Packer
use rubetek_ios_cpp_releases.Spp.Packer.Blocks.{started, flush_lem, put_packet_silent_lem}
use rubetek_ios_cpp_releases.Spp.Accum.{is_too_large, add_packet_in, add_packet, add_all, flush}
use rubetek_ios_cpp_releases.Spp.Accum.Gathering.{
  total_size_of_blocks-concat, IsGathering, buf_not_empty, started_from, gathered-append,
  used_started,
}

module _ (w limit : ℕ) (front : List ℕ) (hw : 0 < w) (hl : limit < 256 ^ w) where
  -- A packet that fits is put behind the gathered ones.
  put_now :
      (groups : List (List (List ℕ))) (cs bs : List (List ℕ)) (p : Packer) (rounds : ℕ)
      → IsGathering w limit front groups cs p
      → is_too_large w bs p ≡ false
      → (q : Packer) × (add_packet_in w (suc rounds) bs p ≡ done q)
        × IsGathering w limit front groups (cs ++ concat bs ∷ []) q
  unfolding add_packet_in is_too_large
  put_now groups cs bs p rounds g small =
      let at = started_from w front cs p hw g.fronts g.holds in
      let n = total_size_of_blocks-concat bs in
      let room : length (concat bs) + w + length (started p) ≤ p.capacity =
        rw (← n, ← used_started p) (ltb→le _ _ small) in
      let (q, e, o, k, c) =
        put_packet_silent_lem w bs p hw (omega (arith, g.limits)) (omega arith) in
      let size : length q.buf ≡ length (started p) + (w + length (concat bs)) = omega (
        arith,
        ap length o,
        length-append (started p) (frame w (concat bs)),
        length-frame w (concat bs),
      ) in
      (
        q,
        rw small e,
        record {
          fronts = k.front_kept ∙ g.fronts;
          limits = c ∙ g.limits;
          holds = o ∙ rw at (gathered-append w front cs (concat bs));
          within = omega (arith, g.limits);
          sends = k.sent_kept ∙ g.sends;
          bounds = rw k.sent_kept g.bounds;
          busy = g.busy;
        },
      )

  -- A flush turns what is gathered into one more group.
  flush-IsGathering :
      (groups : List (List (List ℕ))) (c : List ℕ) (cs : List (List ℕ)) (p : Packer)
      → IsGathering w limit front groups (c ∷ cs) p
      → IsGathering w limit front (groups ++ (c ∷ cs) ∷ []) [] (flush p)
  unfolding flush
  flush-IsGathering groups c cs p g =
      let (b, f, s, k) = flush_lem p in
      let full = buf_not_empty w front c cs p hw g.holds in
      let sent : (Packer.flush p).sent ≡ p.sent ++ p.buf ∷ [] = s ∙ rw full in
      record {
        fronts = f ∙ g.fronts;
        limits = k ∙ g.limits;
        holds = b;
        within = omega (arith, ap length b);
        sends = sent ∙ rw (g.holds, g.sends, map-append);
        bounds = rw sent (All-append _ p.sent (p.buf ∷ []) g.bounds (g.within, tt));
        busy = All-append _ groups ((c ∷ cs) ∷ []) g.busy (omega arith, tt);
      }

  too_large_lem :
      (groups : List (List (List ℕ))) (cs bs : List (List ℕ)) (p : Packer)
      → IsGathering w limit front groups cs p
      → is_too_large w bs p ≡ ltb limit (length (concat bs) + w + length (front ++ frames w cs))
  unfolding is_too_large
  too_large_lem groups cs bs p g = rw (
    used_started p,
    total_size_of_blocks-concat bs,
    started_from w front cs p hw g.fronts g.holds,
    g.limits,
  )

  -- After a flush the second call is made on an empty buffer.
  flushed_first :
      (groups : List (List (List ℕ))) (c : List ℕ) (cs bs : List (List ℕ)) (p : Packer)
      → IsGathering w limit front groups (c ∷ cs) p
      → is_too_large w bs p ≡ true
      → add_packet w bs p ≡ add_packet_in w 1 bs (flush p)
  unfolding add_packet add_packet_in flush
  flushed_first groups c cs bs p g large = rw (large, buf_not_empty w front c cs p hw g.holds)

  empty_buf :
      (groups : List (List (List ℕ))) (p : Packer)
      → IsGathering w limit front groups [] p
      → is_empty p.buf ≡ true
  empty_buf groups p g = rw g.holds

  -- A packet that fits an empty buffer is always taken, behind the gathered ones or after these
  -- have been sent: the invariant holds again, and no packet is lost, doubled or moved. The limit
  -- is a number that the length field can hold.
  pub add_packet_taken :
      (groups : List (List (List ℕ))) (cs bs : List (List ℕ)) (p : Packer)
      → IsGathering w limit front groups cs p
      → length front + w + length (concat bs) ≤ limit
      → (q : Packer) × (groups' : List (List (List ℕ))) × (cs' : List (List ℕ)) × (add_packet w bs p
          ≡ done q)
        × IsGathering w limit front groups' cs' q
        × (concat groups' ++ cs' ≡ (concat groups ++ cs) ++ concat bs ∷ [])
  unfolding add_packet
  add_packet_taken groups [] bs p g h =
      let size : length (front ++ frames w []) ≡ length front = ap length (append-nil front) in
      let small = too_large_lem groups [] bs p g ∙ le→ltb limit _ (omega arith) in
      let (q, e, g') = put_now groups [] bs p 1 g small in
      (q, groups, concat bs ∷ [], e, g', rw append-nil)
  add_packet_taken groups (c ∷ cs) bs p g h = elim (Bool-cases (is_too_large w bs p)) [
    | inl large ↦
        let next = flush-IsGathering groups c cs p g in
        let size : length (front ++ frames w []) ≡ length front = ap length (append-nil front) in
        let small =
          too_large_lem (groups ++ (c ∷ cs) ∷ []) [] bs (flush p) next
          ∙ le→ltb limit _ (omega arith) in
        let (q, e, g') = put_now (groups ++ (c ∷ cs) ∷ []) [] bs (flush p) 0 next small in
        (
          q,
          groups ++ (c ∷ cs) ∷ [],
          concat bs ∷ [],
          flushed_first groups c cs bs p g large ∙ e,
          g',
          rw (concat-append groups ((c ∷ cs) ∷ []), append-nil (c ∷ cs)),
        )
    | inr small ↦
        let (q, e, g') = put_now groups (c ∷ cs) bs p 1 g small in
        (
          q,
          groups,
          (c ∷ cs) ++ concat bs ∷ [],
          e,
          g',
          sym (append_assoc (concat groups) (c ∷ cs) _),
        )
  ]

  -- A packet that does not fit an empty buffer is refused, whatever has been gathered. The limit
  -- is a number that the length field can hold.
  pub add_packet_too_large :
      (groups : List (List (List ℕ))) (cs bs : List (List ℕ)) (p : Packer)
      → IsGathering w limit front groups cs p
      → limit < length front + w + length (concat bs)
      → add_packet w bs p ≡ thrown
  unfolding add_packet add_packet_in flush
  add_packet_too_large groups [] bs p g h =
      let size : length (front ++ frames w []) ≡ length front = ap length (append-nil front) in
      let large = too_large_lem groups [] bs p g ∙ lt→ltb limit _ (omega arith) in
      rw (large, empty_buf groups p g)
  add_packet_too_large groups (c ∷ cs) bs p g h =
      let next = flush-IsGathering groups c cs p g in
      let size = length-append front (frames w (c ∷ cs)) in
      let none_left : length (front ++ frames w []) ≡ length front = ap length (append-nil front) in
      let large = too_large_lem groups (c ∷ cs) bs p g ∙ lt→ltb limit _ (omega arith) in
      let larger =
        too_large_lem (groups ++ (c ∷ cs) ∷ []) [] bs (flush p) next
        ∙ lt→ltb limit _ (omega arith) in
      rw (large, buf_not_empty w front c cs p hw g.holds, larger, empty_buf _ (flush p) next)

  pub add_all_taken :
      (groups : List (List (List ℕ))) (cs : List (List ℕ)) (bss : List (List (List ℕ))) (p : Packer)
      → IsGathering w limit front groups cs p
      → All (λ (bs : List (List ℕ)). length front + w + length (concat bs) ≤ limit) bss
      → (q : Packer) × (groups' : List (List (List ℕ))) × (cs' : List (List ℕ)) × (add_all w bss p
          ≡ done q)
        × IsGathering w limit front groups' cs' q
        × (concat groups' ++ cs' ≡ (concat groups ++ cs) ++ map concat bss)
  unfolding add_all
  add_all_taken groups cs [] p g h = (p, groups, cs, refl, g, sym (append-nil _))
  add_all_taken groups cs (bs ∷ bss) p g h =
      let (q, gs, ds, e, g', m) = add_packet_taken groups cs bs p g h.0 in
      let (r, gs', ds', e', g'', m') = add_all_taken gs ds bss q g' h.1 in
      (r, gs', ds', rw e e', g'', m' ∙ rw m (append_assoc _ (concat bs ∷ []) (map concat bss)))

  -- A flush at the end leaves nothing behind: every packet has been sent, in order.
  pub flush_all :
      (groups : List (List (List ℕ))) (cs : List (List ℕ)) (p : Packer)
      → IsGathering w limit front groups cs p
      → (groups' : List (List (List ℕ))) × IsGathering w limit front groups' [] (flush p)
        × (concat groups' ≡ concat groups ++ cs)
  unfolding flush
  flush_all groups [] p g =
      let (b, f, s, k) = flush_lem p in
      let sent : (Packer.flush p).sent ≡ p.sent = s ∙ rw g.holds (append-nil p.sent) in
      let next : IsGathering w limit front groups [] (flush p) = record {
        fronts = f ∙ g.fronts;
        limits = k ∙ g.limits;
        holds = b;
        within = omega (arith, ap length b);
        sends = sent ∙ g.sends;
        bounds = rw sent g.bounds;
        busy = g.busy;
      } in
      (groups, next, sym (append-nil (concat groups)))
  flush_all groups (c ∷ cs) p g = (
    groups ++ (c ∷ cs) ∷ [],
    flush-IsGathering groups c cs p g,
    rw (concat-append groups ((c ∷ cs) ∷ []), append-nil (c ∷ cs)),
  )
