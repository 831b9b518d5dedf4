-- ===== src/Packet.antt =====
-- The packet parsers of crates/sensor-passive. A packet is the list of its bytes, and every read is
-- a `get` or a `slice`, which gives `none` out of range.
pub mod Frame
pub mod Arp
pub mod ArpRoundTrip
pub mod Ndp
pub mod Dns
pub mod Dhcp
pub mod Ssdp
pub mod Chains
pub mod Safety
mod Tests
use trapd_sensor.Prelude.{
  ◌≤◌, ◌≡◌, refl, arith, Bool-cases, inl, inr, leb, leb→le, slice_from, Bool, true, false, ℕ, zero,
  suc, ◌+◌, ◌-◌, ◌*◌, Option, none, some, List, [], ◌∷◌, Bytes, get_elem?, take, drop, length, ltb,
  if◌then◌else◌,
}

abbrev pub be16 : Bytes → ℕ
be16 (a ∷ b ∷ rest) = a * 256 + b
be16 _ = 0

abbrev pub be32 : Bytes → ℕ
be32 (a ∷ b ∷ c ∷ d ∷ rest) = ((a * 256 + b) * 256 + c) * 256 + d
be32 _ = 0

-- `?` on an `Option`.
infixl 5 ◌>>=◌ ◌>>◌
abbrev pub ◌>>=◌ {ℓ κ} : {A : Type ℓ} {B : Type κ} → Option A → (A → Option B) → Option B
none >>= f = none
some a >>= f = f a

abbrev pub ◌>>◌ {ℓ} : {B : Type ℓ} → Option (Unit {0}) → Option B → Option B
m >> k = m >>= λ _. k

-- `if !test { return None; }`
abbrev pub guard : Bool → Option (Unit {0})
guard true = some tt
guard false = none

pub some_injective {ℓ} : {A : Type ℓ} (a b : A) → some a ≡ some b → a ≡ b
some_injective a b h = cc

-- A chain that succeeds has passed each of its steps.
pub bind_inversion {ℓ κ} :
    {A : Type ℓ} {B : Type κ} (o : Option A) (f : A → Option B) (b : B)
    → (o >>= f) ≡ some b
    → (a : A) × ((o ≡ some a) × (f a ≡ some b))
bind_inversion none f b h = cc
bind_inversion (some a) f b h = (a, (refl, h))

pub guard_passed : (t : Bool) (u : Unit {0}) → guard t ≡ some u → t ≡ true
guard_passed true u h = refl
guard_passed false u h = cc

pub slice_from-some :
    (xs : Bytes) (n : ℕ) (ys : Bytes)
    → slice_from xs n ≡ some ys
    → (ys ≡ drop n xs) × (n ≤ length xs)
slice_from-some xs n ys h = elim (Bool-cases (leb n (length xs))) [
  | inl inside ↦
      (let e : some (drop n xs) ≡ some ys = ground arith in cc, leb→le n (length xs) inside)
  | inr outside ↦ absurd (ground arith)
]
