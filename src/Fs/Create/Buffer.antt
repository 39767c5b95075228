-- ===== src/Fs/Create/Buffer.antt =====
-- fs/open.c `new_dir_entry`: the new entry in the buffer.
use osin32bits.Base.{
  ℕ, zero, suc, ◌+◌, ◌^◌, ◌≤◌, ◌<◌, ◌≡◌, refl, sym, ◌∙◌, inl, inr, List, [], ◌∷◌, arith, length,
  update, Bool-cases, ltb,
}
use osin32bits.Fs.Sectors.{get32, put32, get32-cong, get32-put32_self, put32-other}
use osin32bits.Fs.Path.{buffer_of}
use osin32bits.Fs.Create.{put_text}

put_text-before : (b : ℕ → ℕ) (o : ℕ) (t : List ℕ) (i : ℕ) → i < o → put_text b o t i ≡ b i
unfolding put_text
put_text-before b o [] i h = ground arith
put_text-before b o (c ∷ t) i h =
    put_text-before (update b o c) (o + 1) t i (omega arith) ∙ ground arith

put_text-behind :
    (b : ℕ → ℕ) (o : ℕ) (t : List ℕ) (i : ℕ) → o + length t < i → put_text b o t i ≡ b i
unfolding put_text
put_text-behind b o [] i h = ground arith
put_text-behind b o (c ∷ t) i h =
    put_text-behind (update b o c) (o + 1) t i (ground arith) ∙ ground arith

-- The text with its 0 stands at its place.
put_text-buffer_of :
    (b : ℕ → ℕ) (o : ℕ) (t : List ℕ) (i : ℕ) → i ≤ length t → put_text b o t (o + i) ≡ buffer_of t i
unfolding put_text
put_text-buffer_of b o [] i h = ground arith
put_text-buffer_of b o (c ∷ t) zero h =
    let here : o + 0 ≡ o = omega arith in
    rw here (put_text-before (update b o c) (o + 1) t o (omega arith) ∙ ground arith)
put_text-buffer_of b o (c ∷ t) (suc i) h =
    let there : o + suc i ≡ o + 1 + i = omega arith in
    rw there (put_text-buffer_of (update b o c) (o + 1) t i (ground arith))

-- The number and the name of an entry in a buffer, and what is before it.
abbrev pub with_entry : (b : ℕ → ℕ) → (o inode_nr : ℕ) → List ℕ → ℕ → ℕ
with_entry b o inode_nr filename = put_text (put32 b o inode_nr) (o + 4) filename

pub with_entry-number :
    (b : ℕ → ℕ) (o inode_nr : ℕ) (filename : List ℕ)
    → inode_nr < 2 ^ 32
    → get32 (with_entry b o inode_nr filename) o ≡ inode_nr
with_entry-number b o inode_nr filename h =
    get32-cong (with_entry b o inode_nr filename) (put32 b o inode_nr) o
      (λ i l u. put_text-before (put32 b o inode_nr) (o + 4) filename i u)
    ∙ get32-put32_self b o inode_nr h

pub with_entry-before :
    (b : ℕ → ℕ) (o inode_nr : ℕ) (filename : List ℕ) (i : ℕ)
    → i < o
    → with_entry b o inode_nr filename i ≡ b i
with_entry-before b o inode_nr filename i h =
    put_text-before (put32 b o inode_nr) (o + 4) filename i (omega arith)
    ∙ put32-other b o inode_nr i (inl h)

buffer_of-behind : (t : List ℕ) (i : ℕ) → length t ≤ i → buffer_of t i ≡ 0
buffer_of-behind [] i h = refl
buffer_of-behind (c ∷ t) zero h = absurd (ground arith)
buffer_of-behind (c ∷ t) (suc i) h = buffer_of-behind t i (ground arith)

-- Behind the 0 of the name there has to be zero already.
pub with_entry-name :
    (b : ℕ → ℕ) (o inode_nr : ℕ) (filename : List ℕ) (i : ℕ)
    → (length filename < i → b (o + 4 + i) ≡ 0)
    → with_entry b o inode_nr filename (o + 4 + i) ≡ buffer_of filename i
with_entry-name b o inode_nr filename i clear = elim (Bool-cases (ltb (length filename) i)) [
  | inl behind ↦
      put_text-behind (put32 b o inode_nr) (o + 4) filename (o + 4 + i) (ground arith)
      ∙ put32-other b o inode_nr (o + 4 + i) (inr (omega arith))
      ∙ clear (ground arith)
      ∙ sym (buffer_of-behind filename i (ground arith))
  | inr inside ↦ put_text-buffer_of (put32 b o inode_nr) (o + 4) filename i (ground arith)
]
