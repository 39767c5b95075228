-- ===== src/Text/Format.antt =====
-- lib/vsprintf.c. The words of the arguments are a function, and `mem` gives the text at an address;
-- texts are shorter than STR_DEFAULT_LEN, and a width fits into an int.
pub mod Digits
use osin32bits.Base.{
  ℕ, zero, suc, ◌+◌, ◌-◌, ◌*◌, ◌/◌, ◌%◌, ◌^◌, Option, none, some, Bool, true, false, ◌&&◌, List, [],
  ◌∷◌, ◌++◌, length, replicate, ◌==◌, ltb, leb, if◌then◌else◌,
}
use osin32bits.Text.{characters}

-- An int by its sign and its distance from 0.
pub record Signed : Type 0 where
  pub negative : Bool
  pub size : ℕ

abbrev pub signed : ℕ → Signed
signed v =
    if ltb v (2 ^ 31)
    then record { negative = false; size = v }
    else record { negative = true; size = 2 ^ 32 - v }

-- `(m < 10) ? (m + '0') : (m - 10 + 'A')`, where `m` has the sign of the number.
abbrev pub digit_char : Bool → (m : ℕ) → ℕ
digit_char true m = 48 - m
digit_char false m = if ltb m 10 then m + 48 else m - 10 + 65

-- `i2a`, on fuel: the digits of a number of the sign and size, where `/` and `%` round to 0.
unfoldable pub i2a : (fuel : ℕ) → Bool → (size base : ℕ) → List ℕ
i2a zero sign size base = []
i2a (suc fuel) sign size base =
    let front = i2a fuel sign (size / base) base in
    let last = digit_char sign (size % base) ∷ [] in
    if size / base == 0 then last else front ++ last

-- An int has at most 32 digits.
abbrev pub int_digits : (v base : ℕ) → List ℕ
int_digits v base = i2a 32 (signed v).negative (signed v).size base

-- The text of a conversion, before its padding, and the next argument.
unfoldable pub convert : (mem : ℕ → List ℕ) → (args : ℕ → ℕ) → (c k : ℕ) → List ℕ × ℕ
convert mem args c k =
    let m = args k in
    if c == 99
    then (m % 2 ^ 8 ∷ [], k + 1)
    else (if c == 120
        then (int_digits m 16, k + 1)
        else (if c == 100
            then (
              (if ltb m (2 ^ 31)
                  then int_digits m 10
                  else 45 ∷ int_digits ((2 ^ 32 - m) % 2 ^ 32) 10),
              k + 1,
            )
            else (if c == 115 then (mem m, k + 1) else ([], k))))

-- Where the loop stands: outside of a conversion, behind a `%`, or in a width.
pub data Mode : Type 0 where
  plain : Mode
  percent : Mode
  width : (cs align_nr : ℕ) → Mode

-- What a character writes, the mode and the argument behind it.
pub record Written : Type 0 where
  pub out : List ℕ
  pub mode : Mode
  pub arg : ℕ

-- The character `c` in a width, a digit or the conversion.
unfoldable pub width_char : (mem : ℕ → List ℕ) → (args : ℕ → ℕ) → (cs align_nr c k : ℕ) → Written
width_char mem args cs align_nr c k =
    let (inner, k') = convert mem args c k in
    let text = characters inner in
    if leb 48 c && leb c 57
    then record { out = []; mode = width cs (align_nr * 10 + (c - 48)); arg = k }
    else record { out = replicate (align_nr - length text) cs ++ text; mode = plain; arg = k' }

unfoldable pub format_char : (mem : ℕ → List ℕ) → (args : ℕ → ℕ) → Mode → (c k : ℕ) → Written
format_char mem args plain c k =
    if c == 37
    then record { out = []; mode = percent; arg = k }
    else record { out = c ∷ []; mode = plain; arg = k }
format_char mem args percent c k =
    if c == 37
    then record { out = c ∷ []; mode = plain; arg = k }
    else (if c == 48
        then record { out = []; mode = width 48 0; arg = k }
        else width_char mem args 32 0 c k)
format_char mem args (width cs align_nr) c k = width_char mem args cs align_nr c k

-- The end of the format; inside a conversion the loop would go on behind it, which is `none`.
abbrev pub format_end : Mode → Option (List ℕ)
format_end plain = some []
format_end percent = none
format_end (width cs align_nr) = none

-- The loop of `vsprintf`.
unfoldable pub format :
    (mem : ℕ → List ℕ) → (args : ℕ → ℕ) → Mode → List ℕ → (k : ℕ) → Option (List ℕ)
format mem args mode [] k = format_end mode
format mem args mode (c ∷ fmt) k =
    let w = format_char mem args mode c k in
    let rest = format mem args w.mode fmt w.arg in
    if c == 0 then format_end mode else elim rest [ none ↦ none | some t ↦ some (w.out ++ t) ]

-- `vsprintf`: the text and its length.
unfoldable pub vsprintf : (mem : ℕ → List ℕ) → (args : ℕ → ℕ) → (fmt : List ℕ) → Option (List ℕ × ℕ)
vsprintf mem args fmt = elim (format mem args plain fmt 0) [
  | none ↦ none
  | some t ↦ some (t, length t)
]
