-- ===== src/Proc/Chain.antt =====
-- Sending queues: the linked lists that `q_sending` and `next_sending` make in the process table.
use osin32bits.Base.{
  ℕ, zero, suc, ◌<◌, ◌≡◌, ◌≢◌, inl, inr, true, false, Option, none, some, List, [], ◌∷◌, ◌++◌, ◌∙◌,
  arith, ◌==◌, if◌then◌else◌, length, has, erase, Distinct, Bool-cases,
}
use osin32bits.Proc.Types.{Ipc}
use osin32bits.Proc.Ipc.{last_sending, find_prev}

abbrev pub next_of : (ℕ → Ipc) → ℕ → Option ℕ
next_of f p = (f p).next_sending

-- From `o` the `next` pointers lead through `xs` to the null pointer.
abbrev pub Chain : (ℕ → Option ℕ) → Option ℕ → List ℕ → Type 0
Chain next o [] = o ≡ none
Chain next o (x ∷ xs) = (o ≡ some x) × Chain next (next x) xs

pub Chain-frame :
    (next next' : ℕ → Option ℕ) (o : Option ℕ) (xs : List ℕ)
    → ((x : ℕ) → has x xs ≡ true → next' x ≡ next x)
    → Chain next o xs
    → Chain next' o xs
Chain-frame next next' o [] same c = c
Chain-frame next next' o (x ∷ xs) same c = (
  c.0,
  rw (same x (ground arith))
      (Chain-frame next next' (next x) xs (λ y h. same y (ground arith)) c.1),
)

-- The last of `x ∷ xs`.
abbrev pub last : ℕ → List ℕ → ℕ
last x [] = x
last x (y ∷ ys) = last y ys

pub has-last : (x : ℕ) (xs : List ℕ) → has (last x xs) (x ∷ xs) ≡ true
has-last x [] = ground arith
has-last x (y ∷ ys) = ground (arith, has-last y ys)

pub last_sending-last :
    (fuel : ℕ) (f : ℕ → Ipc) (x : ℕ) (xs : List ℕ)
    → Chain (next_of f) (next_of f x) xs
    → length xs < fuel
    → last_sending fuel f x ≡ some (last x xs)
unfolding last_sending
last_sending-last zero f x xs c h = absurd (omega arith)
last_sending-last (suc fuel) f x [] c h = rw (c, last_sending)
last_sending-last (suc fuel) f x (y ∷ ys) c h =
    rw (c.0, last_sending) (last_sending-last fuel f y ys c.1 (omega arith))

-- Linking a new node behind the last one.
pub Chain-snoc :
    (next next' : ℕ → Option ℕ) (o : Option ℕ) (x : ℕ) (xs : List ℕ) (s : ℕ)
    → next' (last x xs) ≡ some s
    → next' s ≡ none
    → ((y : ℕ) → has y (x ∷ xs) ≡ true → y ≢ last x xs → next' y ≡ next y)
    → Distinct (x ∷ xs)
    → Chain next o (x ∷ xs)
    → Chain next' o (x ∷ xs ++ s ∷ [])
Chain-snoc next next' o x [] s new end same d c = (c.0, (new, end))
Chain-snoc next next' o x (y ∷ ys) s new end same d c = (
  c.0,
  rw (same x (ground arith) apart)
      (Chain-snoc next next' (next x) y ys s new end (λ z h ne. same z (ground arith) ne) d.1 c.1),
)
  where
    apart : x ≢ last y ys
    apart e = ground (arith, has-last y ys)

-- What the walk for `src` finds: nothing before it, or the node whose successor it is.
abbrev pub pred_in : (src : ℕ) (x : ℕ) (xs : List ℕ) → ℕ
pred_in src x [] = x
pred_in src x (y ∷ ys) = if src == y then x else pred_in src y ys

pub find_prev-pred_in :
    (fuel : ℕ) (f : ℕ → Ipc) (src x : ℕ) (xs : List ℕ)
    → Chain (next_of f) (next_of f x) xs
    → has src xs ≡ true
    → length xs < fuel
    → find_prev fuel f src (some x) (next_of f x) ≡ some (some (pred_in src x xs))
unfolding find_prev
find_prev-pred_in zero f src x xs c h l = absurd (omega arith)
find_prev-pred_in (suc fuel) f src x [] c h l = cc
find_prev-pred_in (suc fuel) f src x (y ∷ ys) c h l = elim (Bool-cases (src == y)) [
  | inl e ↦ let e' : (y == src) ≡ true = ground arith in rw (c.0, e, e', find_prev)
  | inr e ↦
      let e' : (y == src) ≡ false = ground arith in
      rw (c.0, e, e', find_prev)
        (find_prev-pred_in fuel f src y ys c.1 (ground arith) (omega arith))
]

pub has-pred_in :
    (src x : ℕ) (xs : List ℕ) → has src xs ≡ true → has (pred_in src x xs) (x ∷ xs) ≡ true
has-pred_in src x [] h = cc
has-pred_in src x (y ∷ ys) h = ground (arith, has-pred_in src y ys)

pub pred_in-ne :
    (src x : ℕ) (xs : List ℕ) → has src xs ≡ true → Distinct (x ∷ xs) → pred_in src x xs ≢ src
pred_in-ne src x [] h d = cc
pred_in-ne src x (y ∷ ys) h d = ground (arith, pred_in-ne src y ys)

-- Unlinking a node that is not the first.
pub Chain-unlink :
    (next next' : ℕ → Option ℕ) (src x : ℕ) (xs : List ℕ)
    → has src xs ≡ true
    → Distinct (x ∷ xs)
    → next' (pred_in src x xs) ≡ next src
    → ((y : ℕ) → has y (x ∷ xs) ≡ true → y ≢ pred_in src x xs → y ≢ src → next' y ≡ next y)
    → Chain next (next x) xs
    → Chain next' (next' x) (erase src xs)
Chain-unlink next next' src x [] h d new same c = cc
Chain-unlink next next' src x (y ∷ ys) h d new same c = elim (Bool-cases (src == y)) [
  | inl e ↦ rw (e, from_y e) (Chain-frame next next' (next y) ys (kept e) c.1)
  | inr e ↦ rw e (
    first e ∙ c.0,
    Chain-unlink next next' src y ys (ground arith) d.1 (ground arith) (later e) c.1,
  )
]
  where
    from_y : (src == y) ≡ true → next' x ≡ next y
    from_y e = ground arith

    kept : (src == y) ≡ true → (z : ℕ) → has z ys ≡ true → next' z ≡ next z
    kept e z g = ground (arith, same z)

    first : (src == y) ≡ false → next' x ≡ next x
    first e = ground (arith, same x, has-pred_in src y ys)

    later :
        (src == y) ≡ false
        → (z : ℕ) → has z (y ∷ ys) ≡ true
        → z ≢ pred_in src y ys
        → z ≢ src
        → next' z ≡ next z
    later e z g n o = ground (arith, same z)
