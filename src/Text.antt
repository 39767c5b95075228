-- ===== src/Text.antt =====
-- lib/misc.c and lib/vsprintf.c: memory, strings and digits. A character is a byte, and an int is its
-- 32-bit pattern; pointers are not null.
pub mod Format
mod Tests
use osin32bits.Base.{
  List, [], ◌∷◌, not, ◌&&◌, ℕ, zero, suc, ◌+◌, ◌-◌, ◌%◌, ◌^◌, ◌≤◌, ◌<◌, ◌≡◌, refl, ◌↔◌, arith, ◌==◌,
  true, ltb, if◌then◌else◌, Bool-cases, inl, inr,
}

-- A char as an int.
abbrev pub int_of_char : ℕ → ℕ
int_of_char c = if ltb c 128 then c else c + (2 ^ 32 - 2 ^ 8)

abbrev pub char_difference : ℕ → ℕ → ℕ
char_difference a b = (int_of_char a + (2 ^ 32 - int_of_char b)) % 2 ^ 32

-- `*p` at the start of a text.
abbrev pub char_at : List ℕ → ℕ
char_at [] = 0
char_at (c ∷ s) = c

-- The characters of a text before its end.
abbrev pub characters : List ℕ → List ℕ
characters [] = []
characters (c ∷ s) = if c == 0 then [] else c ∷ characters s

-- `strcmp`, of two texts.
unfoldable pub strcmp : List ℕ → List ℕ → ℕ
strcmp [] s2 = char_difference 0 (char_at s2)
strcmp (c ∷ s1) [] = char_difference c 0
strcmp (c ∷ s1) (d ∷ s2) =
    let rest = strcmp s1 s2 in
    if not (c == 0) && (not (d == 0) && (c == d)) then rest else char_difference c d

-- The loop of `memcmp` over the `n` bytes from `i` on.
unfoldable pub memcmp : (p1 p2 : ℕ → ℕ) → (n i : ℕ) → ℕ
memcmp p1 p2 zero i = 0
memcmp p1 p2 (suc n) i =
    let rest = memcmp p1 p2 n (i + 1) in
    if p1 i == p2 i then rest else char_difference (p1 i) (p2 i)

char_difference-zero : (a b : ℕ) → a < 256 → b < 256 → char_difference a b ≡ 0 → a ≡ b
char_difference-zero a b ha hb h = ground arith

-- For bytes `memcmp` is 0 exactly if all of them agree.
pub memcmp-zero :
    (p1 p2 : ℕ → ℕ) (n i : ℕ)
    → ((j : ℕ) → p1 j < 256)
    → ((j : ℕ) → p2 j < 256)
    → (memcmp p1 p2 n i ≡ 0) ↔ ((j : ℕ) → i ≤ j → j < i + n → p1 j ≡ p2 j)
unfolding memcmp
memcmp-zero p1 p2 zero i h1 h2 = (λ e j l u. absurd (omega arith), λ f. refl)
memcmp-zero p1 p2 (suc n) i h1 h2 =
    let (to, from) = memcmp-zero p1 p2 n (i + 1) h1 h2 in
    elim (Bool-cases (p1 i == p2 i)) [
      | inl e ↦ rw e (
        λ z j l u. elim (Bool-cases (j == i)) [
          | inl here ↦ let same : j ≡ i = ground arith in rw same (ground arith)
          | inr later ↦ to z j (ground arith) (omega arith)
        ],
        λ f. from (λ j l u. f j (omega arith) (omega arith)),
      )
      | inr e ↦ rw e (
        λ z. let same = char_difference-zero (p1 i) (p2 i) (h1 i) (h2 i) z in absurd (ground arith),
        λ f. let same = f i (omega arith) (omega arith) in absurd (ground arith),
      )
    ]

pub memcmp-cong :
    (p1 p2 q2 : ℕ → ℕ) (n i : ℕ)
    → ((j : ℕ) → i ≤ j → j < i + n → p2 j ≡ q2 j)
    → memcmp p1 p2 n i ≡ memcmp p1 q2 n i
unfolding memcmp
memcmp-cong p1 p2 q2 zero i h = refl
memcmp-cong p1 p2 q2 (suc n) i h =
    rw
      (
        h i (omega arith) (omega arith),
        memcmp-cong p1 p2 q2 n (i + 1) (λ j l u. h j (omega arith) (omega arith)),
      )
      refl

pub memcmp-same :
    (p1 p2 : ℕ → ℕ) (n i : ℕ) → ((j : ℕ) → i ≤ j → j < i + n → p1 j ≡ p2 j) → memcmp p1 p2 n i ≡ 0
unfolding memcmp
memcmp-same p1 p2 zero i h = refl
memcmp-same p1 p2 (suc n) i h =
    let here : (p1 i == p2 i) ≡ true = ground (arith, h i (omega arith) (omega arith)) in
    rw (here, memcmp-same p1 p2 n (i + 1) (λ j l u. h j (omega arith) (omega arith)))
