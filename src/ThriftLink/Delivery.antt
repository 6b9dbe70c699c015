-- ===== src/ThriftLink/Delivery.antt =====
-- Thrift packets over a TCP stream (rubetek/proto/thrift/transceiver.hpp), piece by piece.
use rubetek_ios_cpp_releases.Prelude.{
  ℕ, ◌≡◌, refl, sym, ap, ◌∙◌, false, List, [], ◌∷◌, ◌++◌, append_assoc, append-nil, concat, Option,
  length, length-append, arith,
}
use rubetek_ios_cpp_releases.Prelude.Outcome.{done, ◌>>=◌}
use rubetek_ios_cpp_releases.Elastic
use rubetek_ios_cpp_releases.Elastic.{
  Receiver, has_request, rounds, process_receive_buffer, external_on_receive, call,
  process_taken_block,
}
use rubetek_ios_cpp_releases.ThriftLink.{Callback, Client, reset, process_tcp_payload, process_all}
use rubetek_ios_cpp_releases.ThriftLink.Reading.{
  IsFramed, head, stream, client, length-serialize, Awaits, at_head, in_packet,
}
use rubetek_ios_cpp_releases.ThriftLink.Pieces.{Reached, piece}

module _ {Packet : Type 0} (serialize : Packet → List ℕ) (deserialize : List ℕ → Option Packet)
    (h : IsFramed serialize deserialize) where
  -- The pieces of a stream.
  pieces :
      (bs : List (List ℕ)) (e : ℕ) (z : List ℕ) (awaited : List ℕ → Receiver Callback)
      (before all : List Packet)
      → Awaits serialize deserialize h (concat bs) all z awaited
      → Reached serialize deserialize h
          (process_all deserialize bs (awaited z, client serialize deserialize h e before))
          e
          before
          []
          all
  unfolding process_all process_tcp_payload
  pieces [] e z awaited before all w = record {
    got = [];
    rest = all;
    z = z;
    awaited = awaited;
    ran = ap (λ l. done (awaited z, client serialize deserialize h e l)) (sym (append-nil before));
    split = refl;
    awaits = w;
  }
  pieces (b ∷ bs) e z awaited before all w =
      let r = piece serialize deserialize h e b z (concat bs) awaited before all w in
      let k = pieces bs e r.z r.awaited (before ++ r.got) r.rest r.awaits in
      record {
        got = r.got ++ k.got;
        rest = k.rest;
        z = k.z;
        awaited = k.awaited;
        ran =
            rw r.ran k.ran
            ∙ ap (λ l. done (k.awaited k.z, client serialize deserialize h e l))
                (append_assoc before r.got k.got);
        split = append_assoc r.got k.got k.rest ∙ ap (◌++◌ r.got) k.split ∙ r.split;
        awaits = k.awaits;
      }

  -- At the end of a stream of whole packets nothing is left.
  stream_over :
      (rest : List Packet) (z : List ℕ) (awaited : List ℕ → Receiver Callback)
      → Awaits serialize deserialize h [] rest z awaited
      → (rest ≡ []) × (awaited z ≡ head [])
  stream_over [] [] awaited (at_head hz eq) = (refl, refl)
  stream_over [] (x ∷ z) awaited (at_head hz eq) = absurd (cc eq)
  stream_over (p ∷ ps) z awaited (at_head hz eq) = absurd (
      omega (
        arith,
        ap length eq,
        length-append z [],
        length-append (serialize p) (stream serialize deserialize h ps),
        length-serialize serialize deserialize h p,
      ))
  stream_over rest z awaited (in_packet p ps er hl hu eq) = absurd (
      omega (
        arith,
        ap length (eq ∙ ap (stream serialize deserialize h) er),
        length-append z [],
        length-append (serialize p) (stream serialize deserialize h ps),
        length-serialize serialize deserialize h p,
      ))

  -- After a reset, the packets of a stream that thrift_serialize has written, cut in any way, are
  -- delivered in order, each one once, and no error is reported; a length is awaited again. What
  -- thrift_serialize and thrift_deserialize do is the hypothesis IsFramed.
  pub packets_delivered :
      (r : Receiver Callback) (s : Client Packet) (ps : List Packet) (bs : List (List ℕ))
      → concat bs ≡ stream serialize deserialize h ps
      → (reset deserialize (r, s) >>= process_all deserialize bs)
        ≡ done
            (head [], record { thrift_error = false; packets = s.packets ++ ps; errors = s.errors })
  unfolding reset Elastic.request Elastic.set process_receive_buffer process_taken_block
  packets_delivered r s ps bs eq =
      let k = pieces bs s.errors [] head s.packets ps (at_head (omega arith) eq) in
      let (none_left, over) = stream_over k.rest k.z k.awaited k.awaits in
      let got : k.got ≡ ps = sym (append-nil k.got) ∙ ap (◌++◌ k.got) (sym none_left) ∙ k.split in
      k.ran
      ∙ ap (λ x. done (x, client serialize deserialize h s.errors (s.packets ++ k.got))) over
      ∙ ap (λ l. done (head [], client serialize deserialize h s.errors (s.packets ++ l))) got
