-- ===== src/Tty/Line.antt =====
-- The line that a reader gets for the keys that are typed: the reference for `tty_dev_write`.
use osin32bits.Base.{
  ℕ, zero, suc, ◌+◌, ◌-◌, ◌≡◌, refl, Bool, true, false, List, [], ◌∷◌, ◌++◌, arith, ◌==◌, update,
  if◌then◌else◌, length,
}
use osin32bits.Tty.{new_line, backspace, is_printable}

-- The list without its last element.
abbrev pub drop_last : List ℕ → List ℕ
drop_last [] = []
drop_last (x ∷ []) = []
drop_last (x ∷ y ∷ ys) = x ∷ drop_last (y ∷ ys)

-- The line after the characters `cs`, from `line` on, for a reader who asks for at most `cnt`
-- characters, and whether it is complete: at the first end of line, or when it has `cnt` characters.
unfoldable pub typed : (cnt : ℕ) → List ℕ → List ℕ → List ℕ × Bool
typed cnt line [] = (line, false)
typed cnt line (c ∷ cs) =
    let more = typed cnt (line ++ c ∷ []) cs in
    let fewer = typed cnt (drop_last line) cs in
    let same = typed cnt line cs in
    if c == new_line
    then (line, true)
    else (if is_printable c
        then (if suc (length line) == cnt then (line ++ c ∷ [], true) else more)
        else (if c == backspace then fewer else same))

-- The characters that are shown for them: a character of the line, a backspace that takes one back, and
-- the end of the line once it is complete.
unfoldable pub echoed : (cnt : ℕ) → List ℕ → List ℕ → List ℕ
echoed cnt line [] = []
echoed cnt line (c ∷ cs) =
    let more = echoed cnt (line ++ c ∷ []) cs in
    let fewer = echoed cnt (drop_last line) cs in
    let same = echoed cnt line cs in
    if c == new_line
    then new_line ∷ []
    else (if is_printable c
        then (if suc (length line) == cnt then c ∷ new_line ∷ [] else c ∷ more)
        else (if c == backspace then (if length line == 0 then same else c ∷ fewer) else same))

-- The `n` bytes of memory from `a` on.
abbrev pub read_bytes : (ℕ → ℕ) → (a n : ℕ) → List ℕ
read_bytes mem a zero = []
read_bytes mem a (suc n) = mem a ∷ read_bytes mem (a + 1) n

pub length-read_bytes : (mem : ℕ → ℕ) (a n : ℕ) → length (read_bytes mem a n) ≡ n
length-read_bytes mem a zero = refl
length-read_bytes mem a (suc n) = ground (arith, length-read_bytes mem (a + 1) n)

pub read_bytes-append :
    (mem : ℕ → ℕ) (a n x j : ℕ)
    → j ≡ a + n
    → read_bytes (update mem j x) a (suc n) ≡ read_bytes mem a n ++ x ∷ []
read_bytes-append mem a zero x j e = ground arith
read_bytes-append mem a (suc n) x j e =
    let here : (a == j) ≡ false = ground arith in
    rw (here, read_bytes-append mem (a + 1) n x j (omega arith))

pub read_bytes-drop_last :
    (mem : ℕ → ℕ) (a n : ℕ) → drop_last (read_bytes mem a n) ≡ read_bytes mem a (n - 1)
read_bytes-drop_last mem a zero = refl
read_bytes-drop_last mem a (suc zero) = refl
read_bytes-drop_last mem a (suc (suc n)) =
    let back : suc (suc n) - 1 ≡ suc n = omega arith in
    let inner : suc n - 1 ≡ n = omega arith in
    rw (back, read_bytes-drop_last mem (a + 1) (suc n), inner)
