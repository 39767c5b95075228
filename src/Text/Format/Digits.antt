-- ===== src/Text/Format/Digits.antt =====
-- lib/vsprintf.c `i2a`: the digits are those of the number.
use osin32bits.Base.{
  ℕ, zero, suc, ◌+◌, ◌-◌, ◌*◌, ◌/◌, ◌%◌, ◌^◌, ◌<◌, ◌≡◌, refl, sym, ap, ◌∙◌, true, false, ◌⊎◌, inl,
  inr, List, [], ◌∷◌, ◌++◌, arith, ◌==◌, ltb, if◌then◌else◌, Bool-cases,
}
use osin32bits.Text.Format.{digit_char, i2a, int_digits}

-- The digit of a character, and the number of a text in a base.
abbrev pub digit_of : ℕ → ℕ
digit_of c = if ltb c 65 then c - 48 else c - 55

abbrev pub number : (base acc : ℕ) → List ℕ → ℕ
number base acc [] = acc
number base acc (c ∷ s) = number base (acc * base + digit_of c) s

number-snoc :
    (base acc : ℕ) (s : List ℕ) (c : ℕ)
    → number base acc (s ++ c ∷ []) ≡ number base acc s * base + digit_of c
number-snoc base acc [] c = refl
number-snoc base acc (d ∷ s) c = number-snoc base (acc * base + digit_of d) s c

digit_of-digit_char : (m : ℕ) → m < 16 → digit_of (digit_char false m) ≡ m
digit_of-digit_char m h = ground arith

-- What the digits use of a base.
record IsBase (base : ℕ) : Type 0 where
  division : (n : ℕ) → n / base * base + n % base ≡ n
  small : (n : ℕ) → n % base < 16
  shrinks : (n k : ℕ) → n < 2 * k → n / base < k

decimal-IsBase : IsBase 10
decimal-IsBase = record {
  division = λ n. omega arith;
  small = λ n. omega arith;
  shrinks = λ n k h. omega arith;
}

hexadecimal-IsBase : IsBase 16
hexadecimal-IsBase = record {
  division = λ n. omega arith;
  small = λ n. omega arith;
  shrinks = λ n k h. omega arith;
}

-- The numbers that some fuel is enough for.
abbrev room : ℕ → ℕ
room zero = 1
room (suc n) = 2 * room n

i2a-number :
    (base : ℕ)
    → IsBase base
    → (fuel size : ℕ) → size < room fuel
    → number base 0 (i2a fuel false size base) ≡ size
unfolding i2a
i2a-number base b zero size h = omega arith
i2a-number base b (suc fuel) size h =
    let digit = digit_of-digit_char (size % base) (b.small size) in
    let whole = b.division size in
    elim (Bool-cases (size / base == 0)) [
      | inl e ↦
          let none_left : size / base ≡ 0 = ground arith in
          rw e (
            ap (λ x. 0 * base + x) digit ∙ ap (λ q. q * base + size % base) (sym none_left) ∙ whole)
      | inr e ↦ rw e (
          number-snoc base 0 (i2a fuel false (size / base) base) (digit_char false (size % base))
          ∙ ap (λ x. x * base + digit_of (digit_char false (size % base)))
              (i2a-number base b fuel (size / base) (b.shrinks size (room fuel) h))
          ∙ ap (λ x. size / base * base + x) digit
          ∙ whole)
    ]

IsBase-of : (base : ℕ) → ((base ≡ 10) ⊎ (base ≡ 16)) → IsBase base
IsBase-of base (inl e) = rw e decimal-IsBase
IsBase-of base (inr e) = rw e hexadecimal-IsBase

-- The digits of an int that is not negative are those of the number, in base 10 and in base 16.
pub int_digits-number :
    (v base : ℕ) → v < 2 ^ 31 → ((base ≡ 10) ⊎ (base ≡ 16)) → number base 0 (int_digits v base) ≡ v
int_digits-number v base h b =
    let positive : ltb v (2 ^ 31) ≡ true = ground arith in
    rw positive (i2a-number base (IsBase-of base b) 32 v (omega arith))
