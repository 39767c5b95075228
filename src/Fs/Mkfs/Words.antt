-- ===== src/Fs/Mkfs/Words.antt =====
-- Fields of a struct in the buffer.
use osin32bits.Base.{
  ℕ, zero, suc, ◌+◌, ◌*◌, ◌^◌, ◌<◌, ◌≡◌, refl, ap, ◌∙◌, List, [], ◌∷◌, arith, inl, get_or, length,
}
use osin32bits.Fs.Types.{inode_size, i_char_special}
use osin32bits.Fs.Sectors.{get32, put32, get32-cong, get32-put32_self, put32-other}
use osin32bits.Fs.Mkfs.{put_words, tty_inodes}

put_words-before : (b : ℕ → ℕ) (o : ℕ) (ws : List ℕ) (i : ℕ) → i < o → put_words b o ws i ≡ b i
unfolding put_words
put_words-before b o [] i h = refl
put_words-before b o (w ∷ ws) i h =
    put_words-before (put32 b o w) (o + 4) ws i (omega arith) ∙ put32-other b o w i (inl h)

-- The field `k` is read back.
pub get32-put_words :
    (b : ℕ → ℕ) (o : ℕ) (ws : List ℕ) (k : ℕ)
    → k < length ws
    → get_or ws k 0 < 2 ^ 32
    → get32 (put_words b o ws) (o + k * 4) ≡ get_or ws k 0
unfolding put_words
get32-put_words b o [] k l h = absurd (omega arith)
get32-put_words b o (w ∷ ws) zero l h =
    ap (get32 (put_words (put32 b o w) (o + 4) ws)) (omega arith)
    ∙ get32-cong _ (put32 b o w) o
        (λ i a c. put_words-before (put32 b o w) (o + 4) ws i (omega arith))
    ∙ get32-put32_self b o w h
get32-put_words b o (w ∷ ws) (suc k) l h =
    ap (get32 (put_words (put32 b o w) (o + 4) ws)) (omega arith)
    ∙ get32-put_words (put32 b o w) (o + 4) ws k (omega arith) h

-- The inodes of the terminals lie behind the root inode.
pub tty_inodes-before : (b : ℕ → ℕ) (n i j : ℕ) → j < 32 → tty_inodes b n i j ≡ b j
unfolding tty_inodes
tty_inodes-before b zero i j h = refl
tty_inodes-before b (suc n) i j h =
    let o = inode_size * (i + 1) in
    let ws = i_char_special ∷ 0 ∷ (4 * 2 ^ 8 + i) ∷ 0 ∷ [] in
    tty_inodes-before (put_words b o ws) n (i + 1) j h ∙ put_words-before b o ws j (omega arith)
