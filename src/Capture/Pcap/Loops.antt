-- ===== src/Capture/Pcap/Loops.antt =====
-- Capture/Pcap/Decoder.antt: the loop over the records of a buffer.
use trapd_sensor.Prelude.{
  ◌≡◌, ◌⊎◌, inl, inr, refl, sym, ◌∙◌, arith, ℕ, ◌≤◌, ◌<◌, zero, suc, List, [], ◌∷◌, ◌++◌, Bytes,
  length, length-append, append_assoc,
}
use trapd_sensor.Capture.Pcap.{
  next_record, Next, wait, bad, packet, Header, PcapPacket, PcapError, ok, err, ◌>>=◌,
}
use trapd_sensor.Capture.Pcap.Decoder.{record_loop}
use trapd_sensor.Capture.Pcap.Prefixes.{packet-append, bad-append, packet_shorter}

pub Next-cases :
    (n : Next)
    → (n ≡ wait)
      ⊎ (((e : PcapError) × (n ≡ bad e))
          ⊎ ((p : PcapPacket) × (rest : Bytes) × (n ≡ packet p rest)))
Next-cases wait = inl refl
Next-cases (bad e) = inr (inl (e, refl))
Next-cases (packet p rest) = inr (inr (p, rest, refl))

module _ (h : Header) (m : ℕ) where
  pub loop_wait :
      (f : ℕ) (ps : List PcapPacket) (b : Bytes)
      → next_record h m b ≡ wait
      → record_loop (suc f) h m ps b ≡ ok (ps, b)
  unfolding record_loop
  loop_wait f ps b e = rw (e, record_loop) refl

  pub loop_bad :
      (f : ℕ) (ps : List PcapPacket) (b : Bytes) (x : PcapError)
      → next_record h m b ≡ bad x
      → record_loop (suc f) h m ps b ≡ err x
  unfolding record_loop
  loop_bad f ps b x e = rw (e, record_loop) refl

  pub loop_packet :
      (f : ℕ) (ps : List PcapPacket) (b : Bytes) (p : PcapPacket) (rest : Bytes)
      → next_record h m b ≡ packet p rest
      → record_loop (suc f) h m ps b ≡ record_loop f h m (ps ++ (p ∷ [])) rest
  unfolding record_loop
  loop_packet f ps b p rest e = rw (e, record_loop) refl

  -- More fuel than bytes changes nothing.
  pub record_loop_fuel :
      (f g : ℕ) (ps : List PcapPacket) (b : Bytes)
      → length b < f
      → length b < g
      → record_loop f h m ps b ≡ record_loop g h m ps b
  record_loop_fuel zero g ps b hf hg = absurd (omega arith)
  record_loop_fuel (suc f) zero ps b hf hg = absurd (omega arith)
  record_loop_fuel (suc f) (suc g) ps b hf hg = elim (Next-cases (next_record h m b)) [
    | inl e ↦ loop_wait f ps b e ∙ sym (loop_wait g ps b e)
    | inr (inl (x, e)) ↦ loop_bad f ps b x e ∙ sym (loop_bad g ps b x e)
    | inr (inr (p, rest, e)) ↦
        let less = packet_shorter h m b p rest e in
        rw (loop_packet f ps b p rest e, loop_packet g ps b p rest e)
          (record_loop_fuel f g (ps ++ (p ∷ [])) rest (omega arith) (omega arith))
  ]

  -- The packets found before are kept in front.
  pub record_loop_shift :
      (f : ℕ) (qs ps : List PcapPacket) (b : Bytes)
      → record_loop f h m (qs ++ ps) b ≡ (record_loop f h m ps b >>= λ out. ok (qs ++ out.0, out.1))
  unfolding record_loop
  record_loop_shift zero qs ps b = refl
  record_loop_shift (suc f) qs ps b = elim (Next-cases (next_record h m b)) [
    | inl e ↦ rw (loop_wait f ps b e) (loop_wait f (qs ++ ps) b e)
    | inr (inl (x, e)) ↦ rw (loop_bad f ps b x e) (loop_bad f (qs ++ ps) b x e)
    | inr (inr (p, rest, e)) ↦
        rw
          (
            loop_packet f ps b p rest e,
            loop_packet f (qs ++ ps) b p rest e,
            append_assoc qs ps (p ∷ []),
          )
          (record_loop_shift f qs (ps ++ (p ∷ [])) rest)
  ]

  -- The records of a longer buffer are those of the shorter one, and then those of what that left
  -- with the bytes that follow.
  pub record_loop-append :
      (f k : ℕ) (ps : List PcapPacket) (b ys : Bytes)
      → length (b ++ ys) < f
      → length (b ++ ys) < k
      → record_loop f h m ps (b ++ ys)
        ≡ (record_loop f h m ps b >>= λ out. record_loop k h m out.0 (out.1 ++ ys))
  record_loop-append zero k ps b ys hf hk = absurd (omega arith)
  record_loop-append (suc f) k ps b ys hf hk = elim (Next-cases (next_record h m b)) [
    | inl e ↦ rw (loop_wait f ps b e) (record_loop_fuel (suc f) k ps (b ++ ys) hf hk)
    | inr (inl (x, e)) ↦
        rw (loop_bad f ps b x e) (loop_bad f ps (b ++ ys) x (bad-append h m b ys x e))
    | inr (inr (p, rest, e)) ↦
        let less = packet_shorter h m b p rest e in
        let before = length-append b ys in
        let after = length-append rest ys in
        rw
          (
            loop_packet f ps b p rest e,
            loop_packet f ps (b ++ ys) p (rest ++ ys) (packet-append h m b ys p rest e),
          )
          (record_loop-append f k (ps ++ (p ∷ [])) rest ys (omega arith) (omega arith))
  ]

  -- What is left is not longer, and has no record at its front.
  pub record_loop-rest :
      (f : ℕ) (ps : List PcapPacket) (b : Bytes) (out : List PcapPacket × Bytes)
      → length b < f
      → record_loop f h m ps b ≡ ok out
      → (length out.1 ≤ length b) × (next_record h m out.1 ≡ wait)
  record_loop-rest zero ps b out hf done = absurd (omega arith)
  record_loop-rest (suc f) ps b out hf done = elim (Next-cases (next_record h m b)) [
    | inl e ↦
        let same = sym (loop_wait f ps b e) ∙ done in
        let left : b ≡ out.1 = cc in (rw left (omega arith), rw (sym left) e)
    | inr (inl (x, e)) ↦ let never = sym (loop_bad f ps b x e) ∙ done in absurd cc
    | inr (inr (p, rest, e)) ↦
        let less = packet_shorter h m b p rest e in
        let later = sym (loop_packet f ps b p rest e) ∙ done in
        let (shorter, settled) = record_loop-rest f (ps ++ (p ∷ [])) rest out (omega arith) later in
        (omega arith, settled)
  ]
