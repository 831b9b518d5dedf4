-- ===== src/Prelude/ByteStrings.antt =====
-- Byte strings as lists of numbers: reads of a fixed length, slices, and integers in either order.
use Prim.Native.Nat.{ℕ, zero, suc, ◌+◌, ◌-◌, ◌*◌, ◌/◌, ◌%◌, ◌^◌, ◌<◌}
use mathlib.Core.Path.{◌≡◌, refl, ap}
use mathlib.Core.List.{List, [], ◌∷◌, ◌++◌}
use mathlib.Core.Option.{Option, none, some}
use mathlib.Core.Bool.{Bool, true, false, ◌&&◌}
use native.Mathlib.Omega.{arith}
use native.Mathlib.Nat.{pow-suc}
use trapd_sensor.Prelude.Lists.{length, take, drop, length-append}
use trapd_sensor.Prelude.Tests.{◌==◌, ==_refl, leb, if◌then◌else◌}

abbrev pub Bytes : Type 0
Bytes = List ℕ

abbrev pub IsByte : ℕ → Type 0
IsByte b = b < 256

abbrev pub AllBytes : Bytes → Type 0
AllBytes [] = Unit {0}
AllBytes (b ∷ bs) = IsByte b × AllBytes bs

-- What stands behind the first bytes.
pub drop_behind : (x y : Bytes) (k m : ℕ) → m ≡ length x + k → drop m (x ++ y) ≡ drop k y
drop_behind [] y k m h = let same : m ≡ k = omega arith in ap (λ n. drop n y) same
drop_behind (b ∷ x) y k zero h = absurd (omega arith)
drop_behind (b ∷ x) y k (suc m) h = drop_behind x y k m (omega arith)

-- `==` of two slices.
abbrev pub bytes_eq : Bytes → Bytes → Bool
bytes_eq [] [] = true
bytes_eq [] (b ∷ bs) = false
bytes_eq (a ∷ as') [] = false
bytes_eq (a ∷ as') (b ∷ bs) = (a == b) && bytes_eq as' bs

pub bytes_eq_refl : (bs : Bytes) → bytes_eq bs bs ≡ true
bytes_eq_refl [] = refl
bytes_eq_refl (b ∷ bs) = rw (==_refl b) (bytes_eq_refl bs)

-- `u32::from_le_bytes` and its like, for a width of any number of bytes.
abbrev pub from_le : Bytes → ℕ
from_le [] = 0
from_le (b ∷ bs) = b + 256 * from_le bs

abbrev pub to_le : ℕ → ℕ → Bytes
to_le zero v = []
to_le (suc n) v = v % 256 ∷ to_le n (v / 256)

-- `u16::from_be_bytes` and its like.
abbrev pub from_be_onto : ℕ → Bytes → ℕ
from_be_onto acc [] = acc
from_be_onto acc (b ∷ bs) = from_be_onto (acc * 256 + b) bs

abbrev pub from_be : Bytes → ℕ
from_be = from_be_onto 0

-- `data.get(i..j)`.
abbrev pub slice : Bytes → ℕ → ℕ → Option Bytes
slice xs i j = if leb i j && leb j (length xs) then some (take (j - i) (drop i xs)) else none

-- `data.get(i..)`.
abbrev pub slice_from : Bytes → ℕ → Option Bytes
slice_from xs i = if leb i (length xs) then some (drop i xs) else none

pub length-to_le : (n v : ℕ) → length (to_le n v) ≡ n
length-to_le zero v = refl
length-to_le (suc n) v = ap suc (length-to_le n (v / 256))

pub from_le-to_le : (n v : ℕ) → v < 256 ^ n → from_le (to_le n v) ≡ v
from_le-to_le zero v h = omega arith
from_le-to_le (suc n) v h =
    omega (arith, from_le-to_le n (v / 256) (omega (arith, pow-suc 256 n)), pow-suc 256 n)

pub to_le-from_le : (bs : Bytes) → AllBytes bs → to_le (length bs) (from_le bs) ≡ bs
to_le-from_le [] h = refl
to_le-from_le (b ∷ bs) h =
    let low : (b + 256 * from_le bs) % 256 ≡ b = omega arith in
    let high : (b + 256 * from_le bs) / 256 ≡ from_le bs = omega arith in
    rw (low, high) (ap (◌∷◌ b) (to_le-from_le bs h.1))

pub AllBytes-to_le : (n v : ℕ) → AllBytes (to_le n v)
AllBytes-to_le zero v = tt
AllBytes-to_le (suc n) v = (omega arith, AllBytes-to_le n (v / 256))

abbrev pub to_be : ℕ → ℕ → Bytes
to_be zero v = []
to_be (suc n) v = to_be n (v / 256) ++ (v % 256 ∷ [])

pub length-to_be : (n v : ℕ) → length (to_be n v) ≡ n
length-to_be zero v = refl
length-to_be (suc n) v =
    rw (length-append (to_be n (v / 256)) (v % 256 ∷ []), length-to_be n (v / 256)) (omega arith)

from_be_onto-snoc :
    (acc : ℕ) (bs : Bytes) (b : ℕ)
    → from_be_onto acc (bs ++ (b ∷ [])) ≡ from_be_onto acc bs * 256 + b
from_be_onto-snoc acc [] b = refl
from_be_onto-snoc acc (c ∷ bs) b = from_be_onto-snoc (acc * 256 + c) bs b

pub from_be-to_be : (n v : ℕ) → v < 256 ^ n → from_be (to_be n v) ≡ v
from_be-to_be zero v h = omega arith
from_be-to_be (suc n) v h =
    let width = pow-suc 256 n in
    let smaller : v / 256 < 256 ^ n = omega arith in
    rw (from_be_onto-snoc 0 (to_be n (v / 256)) (v % 256), from_be-to_be n (v / 256) smaller)
      (omega arith)
