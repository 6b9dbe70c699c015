-- ===== src/Ihlp/Answers.antt =====
-- How the transceiver answers a packet (zzz_process_packet in transceiver.hpp).
use rubetek_ios_cpp_releases.Prelude.{
  ℕ, zero, suc, ◌+◌, ◌^◌, ◌<◌, ◌≡◌, refl, sym, ap, ◌∙◌, true, false, not, List, [], ◌∷◌, ◌++◌,
  append_assoc, append-nil, length, is_empty, map, concat, All, Option, some, arith, if◌then◌else◌,
}
use native.Mathlib.Nat.{one-le-pow, pow-suc}
use rubetek_ios_cpp_releases.Prelude.Outcome.{done}
use rubetek_ios_cpp_releases.Spp.Framing.{frame}
use rubetek_ios_cpp_releases.Spp.Packer.Blocks
use rubetek_ios_cpp_releases.Dimension.Trigger
use rubetek_ios_cpp_releases.Ihlp.{
  zzz_set_next_reaction_time, Transceiver, PacketType, keep_alive, payload, response, code,
  add_packet, zzz_send_service_packet, zzz_wait_sending_keep_alive, zzz_wait_reception_response,
  send, send_all, process_payload, zzz_process_packet,
}

-- Between two calls the packer's buffer is empty, and it has no offset.
pub record IsReady (t : Transceiver) : Type 0 where
  pub buf_empty : t.spp_packer.buf ≡ []
  pub front_empty : t.spp_packer.front ≡ []

-- From `t` to `u` these packets have gone out, each in its frame.
pub record Sends (w : ℕ) (t : Transceiver) (packets : List (List ℕ)) (u : Transceiver)
    : Type 0 where
  pub ready : IsReady u
  pub sent : u.spp_packer.sent ≡ t.spp_packer.sent ++ map (frame w) packets
  pub keep_alive_kept : u.keep_alive_time ≡ t.keep_alive_time
  pub response_kept : u.response_time ≡ t.response_time
  pub unpacker_kept : u.spp_unpacker ≡ t.spp_unpacker

map-append_frames :
    (w : ℕ) (xs ys : List (List ℕ))
    → map (frame w) (xs ++ ys) ≡ map (frame w) xs ++ map (frame w) ys
map-append_frames w [] ys = refl
map-append_frames w (x ∷ xs) ys = ap (◌∷◌ (frame w x)) (map-append_frames w xs ys)

pub Sends-nil : (w : ℕ) (t : Transceiver) → IsReady t → Sends w t [] t
Sends-nil w t h = record {
  ready = h;
  sent = sym (append-nil t.spp_packer.sent);
  keep_alive_kept = refl;
  response_kept = refl;
  unpacker_kept = refl;
}

pub Sends-append :
    (w : ℕ) (t u v : Transceiver) (ps qs : List (List ℕ))
    → Sends w t ps u
    → Sends w u qs v
    → Sends w t (ps ++ qs) v
Sends-append w t u v ps qs h k = record {
  ready = k.ready;
  sent = cc (
    h.sent,
    k.sent,
    map-append_frames w ps qs,
    append_assoc t.spp_packer.sent (map (frame w) ps) (map (frame w) qs),
  );
  keep_alive_kept = k.keep_alive_kept ∙ h.keep_alive_kept;
  response_kept = k.response_kept ∙ h.response_kept;
  unpacker_kept = k.unpacker_kept ∙ h.unpacker_kept;
}

-- What a packet of one byte needs.
pub one_fits : (w : ℕ) → 0 < w → 1 < 256 ^ w
one_fits zero h = absurd (omega arith)
one_fits (suc w) h = omega (arith, pow-suc 256 w, one-le-pow w 256 (omega arith))

-- A call of the packer, seen from the transceiver.
pub add_packet_ready :
    (w : ℕ) (blocks : List (List ℕ)) (t : Transceiver)
    → 0 < w
    → length (concat blocks) < 256 ^ w
    → IsReady t
    → (u : Transceiver) × (add_packet w blocks t ≡ done u)
      × Sends w t (concat blocks ∷ []) u
      × (u.wait_response ≡ t.wait_response)
      × (u.next_reaction_time ≡ t.next_reaction_time)
unfolding add_packet
add_packet_ready w blocks t hw h r =
    let (q, e, b, s, f) = Blocks.add_packet_lem w blocks t.spp_packer hw h in
    let u : Transceiver = record t { spp_packer = q } in
    let sent : q.sent ≡ t.spp_packer.sent ++ frame w (concat blocks) ∷ [] =
      s
      ∙ rw (r.buf_empty, r.front_empty)
          (ap (λ l. l ++ frame w (concat blocks) ∷ []) (append-nil t.spp_packer.sent)) in
    let sends : Sends w t (concat blocks ∷ []) u = record {
      ready = record { buf_empty = b; front_empty = f ∙ r.front_empty };
      sent = sent;
      keep_alive_kept = refl;
      response_kept = refl;
      unpacker_kept = refl;
    } in
    (u, rw e refl, sends, refl, refl)

pub service_ready :
    (w : ℕ) (type : PacketType) (t : Transceiver)
    → 0 < w
    → IsReady t
    → (u : Transceiver) × (zzz_send_service_packet w type t ≡ done u)
      × Sends w t ((code type ∷ []) ∷ []) u
      × (u.wait_response ≡ t.wait_response)
      × (u.next_reaction_time ≡ t.next_reaction_time)
unfolding zzz_send_service_packet
service_ready w type t hw r = add_packet_ready w ((code type ∷ []) ∷ []) t hw (one_fits w hw) r

-- A packet that the length field can count together with its type.
abbrev pub Sendable : ℕ → List ℕ → Type 0
Sendable w packet = suc (length packet) < 256 ^ w

pub send_ready :
    (w now : ℕ) (packet : List ℕ) (t : Transceiver)
    → 0 < w
    → Sendable w packet
    → IsReady t
    → (u : Transceiver) × (send w now packet t ≡ done u)
      × Sends w t ((code payload ∷ packet) ∷ []) u
      × (u.wait_response ≡ true)
      × (u.next_reaction_time ≡ now + t.response_time)
unfolding send zzz_wait_reception_response zzz_set_next_reaction_time Trigger.set
send_ready w now packet t hw h r =
    let blocks : List (List ℕ) = (code payload ∷ []) ∷ packet ∷ [] in
    let whole : concat blocks ≡ code payload ∷ packet =
      ap (◌∷◌ (code payload)) (append-nil packet) in
    let (u, e, s, wr, nr) = add_packet_ready w blocks t hw (rw (append-nil packet) h) r in
    let v : Transceiver = zzz_wait_reception_response now u in
    let sends : Sends w t ((code payload ∷ packet) ∷ []) v = record {
      ready = record { buf_empty = s.ready.buf_empty; front_empty = s.ready.front_empty };
      sent = s.sent ∙ ap (λ x. t.spp_packer.sent ++ frame w x ∷ []) whole;
      keep_alive_kept = s.keep_alive_kept;
      response_kept = s.response_kept;
      unpacker_kept = s.unpacker_kept;
    } in
    (v, rw e refl, sends, refl, ap (◌+◌ now) s.response_kept)

pub send_all_ready :
    (w now : ℕ) (packets : List (List ℕ)) (t : Transceiver)
    → 0 < w
    → All (Sendable w) packets
    → IsReady t
    → (u : Transceiver) × (send_all w now packets t ≡ done u)
      × Sends w t (map (◌∷◌ (code payload)) packets) u
      × (u.wait_response ≡ (if is_empty packets then t.wait_response else true))
      × (u.next_reaction_time
          ≡ (if is_empty packets then t.next_reaction_time else now + t.response_time))
unfolding send_all
send_all_ready w now [] t hw h r = (t, refl, Sends-nil w t r, refl, refl)
send_all_ready w now (p ∷ ps) t hw (hp, h) r =
    let (u, e, s, wr, nr) = send_ready w now p t hw hp r in
    let (v, f, q, wq, nq) = send_all_ready w now ps u hw h s.ready in
    let both = Sends-append w t u v ((code payload ∷ p) ∷ []) (map (◌∷◌ (code payload)) ps) s q in
    let wait : v.wait_response ≡ true = wq ∙ rw wr (if_same ps) in
    let next : v.next_reaction_time ≡ now + t.response_time =
      nq ∙ rw (nr, s.response_kept) (if_same_time ps (now + t.response_time)) in
    (v, rw (e, f) refl, both, wait, next)
  where
    if_same : (ps : List (List ℕ)) → (if is_empty ps then true else true) ≡ true
    if_same [] = refl
    if_same (x ∷ xs) = refl

    if_same_time : (ps : List (List ℕ)) (n : ℕ) → (if is_empty ps then n else n) ≡ n
    if_same_time [] n = refl
    if_same_time (x ∷ xs) n = refl

-- What goes out for a payload: what the callback sends, or a response if it sends nothing.
abbrev pub answer : List (List ℕ) → List (List ℕ)
answer replies =
    if is_empty replies then (code response ∷ []) ∷ [] else map (◌∷◌ (code payload)) replies

module _ (w : ℕ) (pay_ready : List ℕ → Option (List (List ℕ))) where
  process_payload_ready :
      (now : ℕ) (packet : List ℕ) (replies : List (List ℕ)) (t : Transceiver)
      → 0 < w
      → All (Sendable w) replies
      → IsReady t
      → t.wait_response ≡ false
      → pay_ready packet ≡ some replies
      → (u : Transceiver) × (process_payload w pay_ready now packet t ≡ done u)
        × Sends w t (answer replies) u
        × (u.wait_response ≡ not (is_empty replies))
        × (u.next_reaction_time
            ≡ (if is_empty replies then t.next_reaction_time else now + t.response_time))
  unfolding process_payload send_all
  process_payload_ready now packet [] t hw h r wf e =
      let (u, f, s, wr, nr) = service_ready w response t hw r in
      let silent : process_payload w pay_ready now packet t
          ≡ (if not t.wait_response then zzz_send_service_packet w response t else done t) =
        rw (e, process_payload) refl in
      let sends = ap (λ b. if not b then zzz_send_service_packet w response t else done t) wf in
      (u, silent ∙ sends ∙ f, s, wr ∙ wf, nr)
  process_payload_ready now packet (p ∷ ps) t hw h r wf e =
      let (u, f, s, wr, nr) = send_all_ready w now (p ∷ ps) t hw h r in
      (u, rw (e, f, wr, process_payload) refl, s, wr, nr)

  -- A payload that the callback takes, and whose replies the length field can count, is delivered
  -- and answered once: with what the callback sends, and then the response time runs, else with a
  -- response, and then the keep-alive time runs.
  pub payload_answered :
      (now : ℕ) (packet : List ℕ) (replies : List (List ℕ)) (t : Transceiver)
      → 0 < w
      → IsReady t
      → pay_ready packet ≡ some replies
      → All (Sendable w) replies
      → (u : Transceiver) × (zzz_process_packet w pay_ready now (code payload ∷ packet) t
          ≡ done (u, packet ∷ []))
        × Sends w t (answer replies) u
        × (u.wait_response ≡ not (is_empty replies))
        × (u.next_reaction_time
            ≡ now + (if is_empty replies then t.keep_alive_time else t.response_time))
  unfolding zzz_process_packet zzz_wait_sending_keep_alive zzz_set_next_reaction_time Trigger.reset
  payload_answered now packet replies t hw r e h =
      let t' : Transceiver = zzz_wait_sending_keep_alive now t in
      let r' : IsReady t' = record { buf_empty = r.buf_empty; front_empty = r.front_empty } in
      let (u, f, s, wr, nr) = process_payload_ready now packet replies t' hw h r' refl e in
      let sends : Sends w t (answer replies) u = record {
        ready = s.ready;
        sent = s.sent;
        keep_alive_kept = s.keep_alive_kept;
        response_kept = s.response_kept;
        unpacker_kept = s.unpacker_kept;
      } in
      (u, rw f refl, sends, wr, nr ∙ time replies)
    where
      time :
          (replies : List (List ℕ))
          → (if is_empty replies then now + t.keep_alive_time else now + t.response_time)
            ≡ now + (if is_empty replies then t.keep_alive_time else t.response_time)
      time [] = refl
      time (x ∷ xs) = refl

  -- A keep-alive packet is answered with a response, whatever follows its type.
  pub keep_alive_answered :
      (now : ℕ) (rest : List ℕ) (t : Transceiver)
      → 0 < w
      → IsReady t
      → (u : Transceiver) × (zzz_process_packet w pay_ready now (code keep_alive ∷ rest) t
          ≡ done (u, []))
        × Sends w t ((code response ∷ []) ∷ []) u
        × (u.wait_response ≡ false)
        × (u.next_reaction_time ≡ now + t.keep_alive_time)
  unfolding zzz_process_packet zzz_wait_sending_keep_alive zzz_set_next_reaction_time Trigger.reset
  keep_alive_answered now rest t hw r =
      let t' : Transceiver = zzz_wait_sending_keep_alive now t in
      let r' : IsReady t' = record { buf_empty = r.buf_empty; front_empty = r.front_empty } in
      let (u, f, s, wr, nr) = service_ready w response t' hw r' in
      let sends : Sends w t ((code response ∷ []) ∷ []) u = record {
        ready = s.ready;
        sent = s.sent;
        keep_alive_kept = s.keep_alive_kept;
        response_kept = s.response_kept;
        unpacker_kept = s.unpacker_kept;
      } in
      (u, rw f refl, sends, wr, nr)
