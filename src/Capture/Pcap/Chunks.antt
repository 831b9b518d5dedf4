-- ===== src/Capture/Pcap/Chunks.antt =====
-- Capture/Pcap/Decoder.antt: how the bytes are cut into pieces does not matter.
use trapd_sensor.Prelude.{
  ◌≡◌, inl, inr, refl, sym, subst, ap, ◌∙◌, ◌≤◌, List, [], ◌∷◌, ◌++◌, Bytes, append_assoc,
}
use trapd_sensor.Capture.Pcap.{PcapError, PcapPacket, Result, ok, err, ◌>>=◌, Result-cases}
use trapd_sensor.Capture.Pcap.Decoder.{
  PcapStreamDecoder, decode_available, accept, limit_of, push, usize_max,
}
use trapd_sensor.Capture.Pcap.Settled.{Settled, decode_available-Settled, decode_available_stable}
use trapd_sensor.Capture.Pcap.Pushing.{
  decode_available-append, accept-nil, push_lem, decode_available_shift, push-Settled,
}

-- The packets that the pushes so far gave, and how the last one ended.
pub record Fed : Type 0 where
  pub delivered : List PcapPacket
  pub ended : Result PcapStreamDecoder

-- One push after another, up to the first that is refused: a caller keeps the packets of the pushes
-- before it.
abbrev pub push_all : PcapStreamDecoder → List Bytes → Fed
push_all d [] = record { delivered = []; ended = ok d }
push_all d (chunk ∷ chunks) = elim (push d chunk) [
  | err e ↦ record { delivered = []; ended = err e }
  | ok out ↦ record {
    delivered = out.0 ++ (push_all out.1 chunks).delivered;
    ended = (push_all out.1 chunks).ended;
  }
]

abbrev pub joined : List Bytes → Bytes
joined [] = []
joined (chunk ∷ chunks) = chunk ++ joined chunks

pub push-append :
    (d : PcapStreamDecoder) (xs ys : Bytes)
    → Settled d
    → limit_of d ≤ usize_max
    → push d (xs ++ ys)
      ≡ (push d xs >>= λ out. push out.1 ys >>= λ more. ok (out.0 ++ more.0, more.1))
push-append d xs ys s small =
    let twice : accept (accept d xs) ys ≡ accept d (xs ++ ys) =
      λ i. record d { buffer = append_assoc d.buffer xs ys i } in
    let both = decode_available-append (accept d xs) [] ys in
    rw (push_lem d (xs ++ ys) s small, push_lem d xs s small, sym twice, both)
      (elim (Result-cases (decode_available (accept d xs) [])) [
        | inl (x, e) ↦ rw e refl
        | inr (out, e) ↦
            let (settled, same) = decode_available-Settled (accept d xs) [] out e in
            rw (e, push_lem out.1 ys settled (rw same small))
              (decode_available_shift (accept out.1 ys) out.0)
      ])

push-nil : (d : PcapStreamDecoder) → Settled d → limit_of d ≤ usize_max → push d [] ≡ ok ([], d)
push-nil d s small =
    push_lem d [] s small
    ∙ (ap (λ x. decode_available x []) (accept-nil d) ∙ decode_available_stable d [] s)

-- What pushes give that end with an error: the pieces before the refused one, pushed at once, give
-- the packets that were delivered, and the decoder that refuses the piece.
pub record Refused (d : PcapStreamDecoder) (chunks : List Bytes) (e : PcapError) (fed : Fed)
    : Type 0 where
  pub before : List Bytes
  pub piece : Bytes
  pub after : List Bytes
  pub last : PcapStreamDecoder
  pub chunks_eq : chunks ≡ before ++ (piece ∷ after)
  pub before_eq : push d (joined before) ≡ ok (fed.delivered, last)
  pub piece_eq : push last piece ≡ err e
  pub ended_eq : fed.ended ≡ err e

-- One push of all bytes, and the pushes of the pieces.
abbrev pub Agrees :
    PcapStreamDecoder → List Bytes → Result (List PcapPacket × PcapStreamDecoder) → Fed → Type 0
Agrees d chunks (ok out) fed = (fed.delivered ≡ out.0) × (fed.ended ≡ ok out.1)
Agrees d chunks (err e) fed = Refused d chunks e fed

more_delivered : List PcapPacket → Fed → Fed
more_delivered ps fed = record { delivered = ps ++ fed.delivered; ended = fed.ended }

Agrees-cons :
    (d : PcapStreamDecoder) (chunk : Bytes) (chunks : List Bytes)
    (out : List PcapPacket × PcapStreamDecoder) (r : Result (List PcapPacket × PcapStreamDecoder))
    (fed : Fed)
    → Settled d
    → limit_of d ≤ usize_max
    → push d chunk ≡ ok out
    → Agrees out.1 chunks r fed
    → Agrees d
        (chunk ∷ chunks)
        (r >>= λ more. ok (out.0 ++ more.0, more.1))
        (more_delivered out.0 fed)
unfolding more_delivered
Agrees-cons d chunk chunks out (ok more) fed s small e h =
    (ap (λ (ps : List PcapPacket). out.0 ++ ps) h.0, h.1)
Agrees-cons d chunk chunks out (err x) fed s small e h = record {
  before = chunk ∷ h.before;
  piece = h.piece;
  after = h.after;
  last = h.last;
  chunks_eq = ap (λ (cs : List Bytes). chunk ∷ cs) h.chunks_eq;
  before_eq = push-append d chunk (joined h.before) s small ∙ rw (e, h.before_eq) refl;
  piece_eq = h.piece_eq;
  ended_eq = h.ended_eq;
}

-- Pieces pushed one after another give, if one push of all their bytes succeeds, the same packets
-- and the same decoder: how the bytes are cut does not matter. If that push is refused, so is that
-- of a piece, with the same error, and the packets delivered until then are those of one push of
-- the pieces before it. The decoder is one between two calls, with a limit that is a machine word.
pub push_all-push :
    (d : PcapStreamDecoder) (chunks : List Bytes)
    → Settled d
    → limit_of d ≤ usize_max
    → Agrees d chunks (push d (joined chunks)) (push_all d chunks)
unfolding more_delivered
push_all-push d [] s small = rw (push-nil d s small) (refl, refl)
push_all-push d (chunk ∷ chunks) s small = elim (Result-cases (push d chunk)) [
  | inl (x, e) ↦
      let whole : push d (chunk ++ joined chunks) ≡ err x =
        push-append d chunk (joined chunks) s small ∙ rw e refl in
      rw (whole, e, push_all)
        (record {
          before = [];
          piece = chunk;
          after = chunks;
          last = d;
          chunks_eq = refl;
          before_eq = push-nil d s small;
          piece_eq = e;
          ended_eq = refl;
        })
  | inr (out, e) ↦
      let (settled, same) = push-Settled d chunk out s small e in
      let later = push_all-push out.1 chunks settled (rw same small) in
      let whole : push d (chunk ++ joined chunks)
          ≡ (push out.1 (joined chunks) >>= λ more. ok (out.0 ++ more.0, more.1)) =
        push-append d chunk (joined chunks) s small ∙ rw e refl in
      rw (whole, e, push_all)
        (Agrees-cons d chunk chunks out (push out.1 (joined chunks)) (push_all out.1 chunks) s small
          e later)
]

-- Where one push of all bytes succeeds, the pieces give what it gives.
pub push_all_ok :
    (d : PcapStreamDecoder) (chunks : List Bytes) (out : List PcapPacket × PcapStreamDecoder)
    → Settled d
    → limit_of d ≤ usize_max
    → push d (joined chunks) ≡ ok out
    → push_all d chunks ≡ record { delivered = out.0; ended = ok out.1 }
push_all_ok d chunks out s small e =
    let h : Agrees d chunks (ok out) (push_all d chunks) =
      subst (λ r. Agrees d chunks r (push_all d chunks)) e (push_all-push d chunks s small) in
    λ i. record { delivered = h.0 i; ended = h.1 i }
