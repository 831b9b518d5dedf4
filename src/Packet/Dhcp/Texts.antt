-- ===== src/Packet/Dhcp/Texts.antt =====
-- Packet/Dhcp.antt: the texts that `to_text` gives.
use trapd_sensor.Prelude.{
  ◌≡◌, inl, inr, refl, ap, ◌∙◌, arith, ℕ, ◌≤◌, Option, none, some, [], ◌∷◌, Bytes, length, All,
  ◌==◌, Bool-cases, false,
}
use trapd_sensor.Packet.{◌>>=◌}
use trapd_sensor.Packet.Dns.{is_printable}
use trapd_sensor.Packet.Dns.Clean.{PrintableByte}
use trapd_sensor.Packet.Dhcp.{to_text, text_of, trim, trim_start, trim_end, cons_trimmed, non_empty}

text_of-Printable : (bs : Bytes) → All PrintableByte (text_of bs)
text_of-Printable [] = tt
text_of-Printable (b ∷ bs) = elim (Bool-cases (b == 0)) [
  | inl zero_byte ↦ rw zero_byte tt
  | inr set ↦ rw set (elim (Bool-cases (is_printable b)) [
    | inl good ↦ rw good ((ground arith, ground arith), text_of-Printable bs)
    | inr bad ↦ rw bad (text_of-Printable bs)
  ])
]

trim_start-Printable : (bs : Bytes) → All PrintableByte bs → All PrintableByte (trim_start bs)
trim_start-Printable [] good = tt
trim_start-Printable (b ∷ bs) (one, more) = elim (Bool-cases (b == 0x20)) [
  | inl space ↦ rw space (trim_start-Printable bs more)
  | inr plain ↦ rw plain (one, more)
]

cons_trimmed-Printable :
    (b : ℕ) (bs : Bytes)
    → PrintableByte b
    → All PrintableByte bs
    → All PrintableByte (cons_trimmed b bs)
cons_trimmed-Printable b [] one more = elim (Bool-cases (b == 0x20)) [
  | inl space ↦ rw space tt
  | inr plain ↦ rw plain (one, tt)
]
cons_trimmed-Printable b (c ∷ cs) one more = (one, more)

trim_end-Printable : (bs : Bytes) → All PrintableByte bs → All PrintableByte (trim_end bs)
trim_end-Printable [] good = tt
trim_end-Printable (b ∷ bs) (one, more) =
    cons_trimmed-Printable b (trim_end bs) one (trim_end-Printable bs more)

-- No space at the front.
abbrev NoSpace : Bytes → Type 0
NoSpace [] = Unit {0}
NoSpace (b ∷ bs) = (b == 0x20) ≡ false

trim_start-NoSpace : (bs : Bytes) → NoSpace (trim_start bs)
trim_start-NoSpace [] = tt
trim_start-NoSpace (b ∷ bs) = elim (Bool-cases (b == 0x20)) [
  | inl space ↦ rw space (trim_start-NoSpace bs)
  | inr plain ↦ rw plain plain
]

trim_start_same : (bs : Bytes) → NoSpace bs → trim_start bs ≡ bs
trim_start_same [] plain = refl
trim_start_same (b ∷ bs) plain = rw plain refl

cons_trimmed-NoSpace : (b : ℕ) (bs : Bytes) → (b == 0x20) ≡ false → NoSpace (cons_trimmed b bs)
cons_trimmed-NoSpace b [] plain = rw plain plain
cons_trimmed-NoSpace b (c ∷ cs) plain = plain

trim_end-NoSpace : (bs : Bytes) → NoSpace bs → NoSpace (trim_end bs)
trim_end-NoSpace [] plain = tt
trim_end-NoSpace (b ∷ bs) plain = cons_trimmed-NoSpace b (trim_end bs) plain

cons_trimmed_again :
    (b : ℕ) (bs : Bytes) → trim_end bs ≡ bs → trim_end (cons_trimmed b bs) ≡ cons_trimmed b bs
cons_trimmed_again b [] same = elim (Bool-cases (b == 0x20)) [
  | inl space ↦ rw space refl
  | inr plain ↦ rw (plain, plain) refl
]
cons_trimmed_again b (c ∷ cs) same = ap (cons_trimmed b) same

trim_end_again : (bs : Bytes) → trim_end (trim_end bs) ≡ trim_end bs
trim_end_again [] = refl
trim_end_again (b ∷ bs) = cons_trimmed_again b (trim_end bs) (trim_end_again bs)

trim_again : (bs : Bytes) → trim (trim bs) ≡ trim bs
trim_again bs =
    ap trim_end
      (trim_start_same (trim bs) (trim_end-NoSpace (trim_start bs) (trim_start-NoSpace bs)))
    ∙ trim_end_again (trim_start bs)

-- A text that may reach a log: printable characters, at least one, and no space at either end.
pub record CleanText (text : Bytes) : Type 0 where
  pub printable : All PrintableByte text
  pub present : 1 ≤ length text
  pub trimmed : trim text ≡ text

abbrev pub IfSome {ℓ κ} : {A : Type ℓ} → (A → Type κ) → Option A → Type κ
IfSome P none = Unit
IfSome P (some x) = P x

non_empty-CleanText :
    (bs : Bytes) → All PrintableByte bs → trim bs ≡ bs → IfSome CleanText (non_empty bs)
non_empty-CleanText [] good same = tt
non_empty-CleanText (b ∷ bs) good same = record {
  printable = good;
  present = omega arith;
  trimmed = same;
}

to_text-CleanText : (value : Bytes) → IfSome CleanText (to_text value)
unfolding to_text
to_text-CleanText value =
    non_empty-CleanText (trim (text_of value))
      (trim_end-Printable (trim_start (text_of value))
        (trim_start-Printable (text_of value) (text_of-Printable value)))
      (trim_again (text_of value))

pub option-CleanText : (o : Option Bytes) → IfSome CleanText (o >>= to_text)
option-CleanText none = tt
option-CleanText (some value) = to_text-CleanText value
