-- ===== src/Packet/Dhcp/Options.antt =====
-- Packet/Dhcp.antt: `parse_options` on options as a client writes them.
use trapd_sensor.Prelude.{
  Bool, ◌≡◌, inl, inr, refl, sym, ap, ◌∙◌, arith, ℕ, ◌≤◌, ◌<◌, ◌+◌, zero, suc, Option, none, some,
  [], ◌∷◌, ◌++◌, Bytes, length, length-append, All, take-append_length, drop-append_length, leb,
  ◌==◌, Bool-cases, Option-cases, le→leb, le→ltb, true, false, if◌then◌else◌,
}
use trapd_sensor.Packet.Dhcp.{
  OptionMap, get, or_insert, or_else, stop, option, option_step, option_loop, parse_options,
  max_options, option_end, option_pad,
}

-- The options of a message, as they are written in front of other bytes.
abbrev pub write_options : OptionMap → Bytes → Bytes
write_options [] rest = rest
write_options ((code, value) ∷ options) rest =
    code ∷ length value ∷ (value ++ write_options options rest)

-- A code that is neither padding nor the end, and a value whose length is a byte.
abbrev pub Writable : ℕ × Bytes → Type 0
Writable (code, value) = (1 ≤ code) × ((code < 255) × (length value < 256))

step_option :
    (seen code : ℕ) (value rest : Bytes)
    → Writable (code, value)
    → seen < max_options
    → option_step seen (code ∷ length value ∷ (value ++ rest)) ≡ option code value rest
unfolding option_step
step_option seen code value rest (positive, (inner, _)) few =
    let not_end : (code == option_end) ≡ false = ground arith in
    let not_pad : (code == option_pad) ≡ false = ground arith in
    let room : leb (length value) (length (value ++ rest)) ≡ true =
      le→leb _ _ (rw (length-append value rest) (omega arith)) in
    rw
      (
        not_end,
        not_pad,
        le→ltb max_options (seen + 1) (omega arith),
        room,
        take-append_length value rest,
        drop-append_length value rest,
      )
      refl

step_end : (seen : ℕ) (rest : Bytes) → option_step seen (option_end ∷ rest) ≡ stop
unfolding option_step
step_end seen rest = refl

abbrev insert_all : OptionMap → OptionMap → OptionMap
insert_all out [] = out
insert_all out ((code, value) ∷ options) = insert_all (or_insert out code value) options

loop_stop :
    (fuel seen : ℕ) (out : OptionMap) (bytes : Bytes)
    → option_step seen bytes ≡ stop
    → option_loop (suc fuel) seen out bytes ≡ out
unfolding option_loop
loop_stop fuel seen out bytes e = rw (e, option_loop) refl

loop_option :
    (fuel seen : ℕ) (out : OptionMap) (bytes : Bytes) (code : ℕ) (value rest : Bytes)
    → option_step seen bytes ≡ option code value rest
    → option_loop (suc fuel) seen out bytes
      ≡ option_loop fuel (seen + 1) (or_insert out code value) rest
unfolding option_loop
loop_option fuel seen out bytes code value rest e = rw (e, option_loop) refl

option_loop-write_options :
    (options : OptionMap) (fuel seen : ℕ) (out : OptionMap) (rest : Bytes)
    → All Writable options
    → seen + length options ≤ max_options
    → length options < fuel
    → option_loop fuel seen out (write_options options (option_end ∷ rest)) ≡ insert_all out options
option_loop-write_options options zero seen out rest good few enough = absurd (omega arith)
option_loop-write_options [] (suc fuel) seen out rest good few enough =
    loop_stop fuel seen out (option_end ∷ rest) (step_end seen rest)
option_loop-write_options ((code, value) ∷ options) (suc fuel) seen out rest (one, more) few
      enough =
    let after = write_options options (option_end ∷ rest) in
    loop_option fuel seen out (code ∷ length value ∷ (value ++ after)) code value after
      (step_option seen code value after one (omega arith))
    ∙ option_loop-write_options options fuel (seen + 1) (or_insert out code value) rest more
        (omega arith) (omega arith)

get-append :
    (xs : OptionMap) (code c : ℕ) (value : Bytes)
    → get (xs ++ ((c, value) ∷ [])) code
      ≡ or_else (get xs code) (if code == c then some value else none)
get-append [] code c value = refl
get-append ((k, v) ∷ xs) code c value = elim (Bool-cases (code == k)) [
  | inl same ↦ rw same refl
  | inr apart ↦ rw apart (get-append xs code c value)
]

or_else_assoc {ℓ} :
    {A : Type ℓ} (x y z : Option A) → or_else (or_else x y) z ≡ or_else x (or_else y z)
or_else_assoc none y z = refl
or_else_assoc (some x) y z = refl

or_else-none {ℓ} : {A : Type ℓ} (x : Option A) → or_else x none ≡ x
or_else-none none = refl
or_else-none (some x) = refl

or_else-if :
    (t : Bool) (value : Bytes) (y : Option Bytes)
    → or_else (if t then some value else none) y ≡ (if t then some value else y)
or_else-if true value y = refl
or_else-if false value y = refl

get-or_insert :
    (out : OptionMap) (code c : ℕ) (value : Bytes)
    → get (or_insert out c value) code
      ≡ or_else (get out code) (if code == c then some value else none)
get-or_insert out code c value = elim (Option-cases (get out c)) [
  | inl e ↦ rw e (get-append out code c value)
  | inr (old, e) ↦ rw e (elim (Bool-cases (code == c)) [
    | inl same ↦ let equal : code ≡ c = ground arith in rw (same, equal, e) refl
    | inr apart ↦ rw apart (sym (or_else-none (get out code)))
  ])
]

get-insert_all :
    (options out : OptionMap) (code : ℕ)
    → get (insert_all out options) code ≡ or_else (get out code) (get options code)
get-insert_all [] out code = sym (or_else-none (get out code))
get-insert_all ((c, value) ∷ options) out code =
    let known = if code == c then some value else none in
    get-insert_all options (or_insert out c value) code
    ∙ (ap (λ o. or_else o (get options code)) (get-or_insert out code c value)
        ∙ (or_else_assoc (get out code) known (get options code)
            ∙ ap (or_else (get out code)) (or_else-if (code == c) value (get options code))))

length-write_options :
    (options : OptionMap) (rest : Bytes)
    → length options + length rest ≤ length (write_options options rest)
length-write_options [] rest = omega arith
length-write_options ((code, value) ∷ options) rest =
    let more = length-write_options options rest in
    rw (length-append value (write_options options rest)) (omega arith)

-- What the parser knows of a code is the first option with it, for up to 64 written options that
-- an end follows, whatever stands behind the end.
pub get-parse_options :
    (options : OptionMap) (rest : Bytes) (code : ℕ)
    → All Writable options
    → length options ≤ max_options
    → get (parse_options (write_options options (option_end ∷ rest))) code ≡ get options code
unfolding parse_options
get-parse_options options rest code good few =
    let size = length-write_options options (option_end ∷ rest) in
    rw
      (option_loop-write_options options (length (write_options options (option_end ∷ rest))) 0 []
        rest good (omega arith) (omega arith))
      (get-insert_all options [] code)
