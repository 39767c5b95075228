-- ===== src/Text/Tests.antt =====
-- The digits of a number, and a format.
use osin32bits.Base.{◌≡◌, refl, some, [], ◌∷◌, ◌^◌, ◌-◌, ◌==◌, if◌then◌else◌}
use osin32bits.Text.Format.{int_digits, vsprintf}

-- "[%04x|%d]" of 255 and -3.
format_test :
    vsprintf
      (λ a. [])
      (λ k. if k == 0 then 255 else 2 ^ 32 - 3)
      (91 ∷ 37 ∷ 48 ∷ 52 ∷ 120 ∷ 124 ∷ 37 ∷ 100 ∷ 93 ∷ [])
    ≡ some (91 ∷ 48 ∷ 48 ∷ 70 ∷ 70 ∷ 124 ∷ 45 ∷ 51 ∷ 93 ∷ [], 9)
unfolding vsprintf osin32bits.Text.Format.format osin32bits.Text.Format.format_char
    osin32bits.Text.Format.width_char osin32bits.Text.Format.convert osin32bits.Text.Format.i2a
format_test = refl

-- "%x" of -1 is "/".
negative_test : vsprintf (λ a. []) (λ k. 2 ^ 32 - 1) (37 ∷ 120 ∷ []) ≡ some (47 ∷ [], 1)
unfolding vsprintf osin32bits.Text.Format.format osin32bits.Text.Format.format_char
    osin32bits.Text.Format.width_char osin32bits.Text.Format.convert osin32bits.Text.Format.i2a
negative_test = refl
