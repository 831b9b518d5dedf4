-- ===== src/Wal/Directory.antt =====
-- The directory of one log: its segment files by number, and the cursor file. `BTreeSet<u64>` is
-- an ascending list.
use trapd_sensor.Prelude.{
  ◌≤◌, All, ◌<◌, ℕ, ◌≡◌, refl, Option, none, some, List, [], ◌∷◌, ◌++◌, Bytes, arith, ltb, leb,
  ◌==◌, if◌then◌else◌,
}

-- The file `{id:016x}.log` under its number.
pub record Directory : Type 0 where
  pub files : List (ℕ × Bytes)
  pub cursor_file : Option Bytes

unfoldable pub lookup : ℕ → List (ℕ × Bytes) → Option Bytes
lookup k [] = none
lookup k ((j, v) ∷ m) = if j == k then some v else lookup k m

unfoldable pub write : ℕ → Bytes → List (ℕ × Bytes) → List (ℕ × Bytes)
write k v [] = (k, v) ∷ []
write k v ((j, w) ∷ m) = if j == k then (k, v) ∷ m else (j, w) ∷ write k v m

unfoldable pub remove_segment : ℕ → List (ℕ × Bytes) → List (ℕ × Bytes)
remove_segment k [] = []
remove_segment k ((j, v) ∷ m) =
    let rest = remove_segment k m in if j == k then rest else (j, v) ∷ rest

pub lookup-write :
    (k j : ℕ) (v : Bytes) (m : List (ℕ × Bytes))
    → lookup j (write k v m) ≡ (if k == j then some v else lookup j m)
unfolding lookup write
lookup-write k j v [] = refl
lookup-write k j v ((i, w) ∷ m) = ground (arith, lookup-write k j v m)

pub lookup-remove_segment :
    (k j : ℕ) (m : List (ℕ × Bytes))
    → lookup j (remove_segment k m) ≡ (if k == j then none else lookup j m)
unfolding lookup remove_segment
lookup-remove_segment k j [] = ground arith
lookup-remove_segment k j ((i, w) ∷ m) = ground (arith, lookup-remove_segment k j m)

-- `BTreeSet::insert` and `remove`.
unfoldable pub insert : ℕ → List ℕ → List ℕ
insert x [] = x ∷ []
insert x (y ∷ ys) = if ltb x y then x ∷ y ∷ ys else if x == y then y ∷ ys else y ∷ insert x ys

unfoldable pub remove : ℕ → List ℕ → List ℕ
remove x [] = []
remove x (y ∷ ys) = let rest = remove x ys in if x == y then ys else y ∷ rest

-- `range(x..)`, `range(..x)` and `range(..=x)`.
unfoldable pub range_from : ℕ → List ℕ → List ℕ
range_from x [] = []
range_from x (y ∷ ys) = let rest = range_from x ys in if leb x y then y ∷ rest else rest

unfoldable pub range_below : ℕ → List ℕ → List ℕ
range_below x [] = []
range_below x (y ∷ ys) = let rest = range_below x ys in if ltb y x then y ∷ rest else rest

unfoldable pub range_upto : ℕ → List ℕ → List ℕ
range_upto x [] = []
range_upto x (y ∷ ys) = let rest = range_upto x ys in if leb y x then y ∷ rest else rest

-- `range(x..).next()`.
unfoldable pub next_from : ℕ → List ℕ → Option ℕ
next_from x [] = none
next_from x (y ∷ ys) = if leb x y then some y else next_from x ys

-- `iter().next_back()`, with what `unwrap_or` gives for the empty set.
unfoldable pub next_back_or : ℕ → List ℕ → ℕ
next_back_or d [] = d
next_back_or d (y ∷ ys) = next_back_or y ys

-- `discover_segments`: the numbers of the files that are there.
unfoldable pub discover_segments : List (ℕ × Bytes) → List ℕ
discover_segments [] = []
discover_segments ((id, _) ∷ m) = insert id (discover_segments m)

-- A number above all others goes to the end.
pub insert_last : (n : ℕ) (xs : List ℕ) → All (λ x. x < n) xs → insert n xs ≡ xs ++ (n ∷ [])
unfolding insert
insert_last n [] h = refl
insert_last n (x ∷ xs) h = ground (arith, insert_last n xs h.1)

pub next_from_skip :
    (x : ℕ) (xs ys : List ℕ) → All (λ y. y < x) xs → next_from x (xs ++ ys) ≡ next_from x ys
unfolding next_from
next_from_skip x [] ys h = refl
next_from_skip x (y ∷ xs) ys h = ground (arith, next_from_skip x xs ys h.1)

pub next_from_head : (x y : ℕ) (ys : List ℕ) → x ≤ y → next_from x (y ∷ ys) ≡ some y
unfolding next_from
next_from_head x y ys h = ground arith

pub next_from_nil : (x : ℕ) → next_from x [] ≡ none
unfolding next_from
next_from_nil x = refl

pub range_from_skip :
    (x : ℕ) (xs ys : List ℕ) → All (λ y. y < x) xs → range_from x (xs ++ ys) ≡ range_from x ys
unfolding range_from
range_from_skip x [] ys h = refl
range_from_skip x (y ∷ xs) ys h = ground (arith, range_from_skip x xs ys h.1)

pub range_from-All : (x : ℕ) (ys : List ℕ) → All (λ y. x ≤ y) ys → range_from x ys ≡ ys
unfolding range_from
range_from-All x [] h = refl
range_from-All x (y ∷ ys) h = ground (arith, range_from-All x ys h.1)

pub range_upto_none : (x : ℕ) (ys : List ℕ) → All (λ y. x < y) ys → range_upto x ys ≡ []
unfolding range_upto
range_upto_none x [] h = refl
range_upto_none x (y ∷ ys) h = ground (arith, range_upto_none x ys h.1)

-- `..=x` in an ascending list keeps what stands up to `x`.
pub range_upto_cut :
    (x : ℕ) (xs ys : List ℕ)
    → All (λ y. y < x) xs
    → All (λ y. x < y) ys
    → range_upto x (xs ++ (x ∷ ys)) ≡ xs ++ (x ∷ [])
unfolding range_upto
range_upto_cut x [] ys h k = ground (arith, range_upto_none x ys k)
range_upto_cut x (y ∷ xs) ys h k = ground (arith, range_upto_cut x xs ys h.1 k)

range_below_none : (x : ℕ) (ys : List ℕ) → All (λ y. x ≤ y) ys → range_below x ys ≡ []
unfolding range_below
range_below_none x [] h = refl
range_below_none x (y ∷ ys) h = ground (arith, range_below_none x ys h.1)

pub range_below_cut :
    (x : ℕ) (xs ys : List ℕ)
    → All (λ y. y < x) xs
    → All (λ y. x ≤ y) ys
    → range_below x (xs ++ ys) ≡ xs
unfolding range_below
range_below_cut x [] ys h k = range_below_none x ys k
range_below_cut x (y ∷ xs) ys h k = ground (arith, range_below_cut x xs ys h.1 k)
