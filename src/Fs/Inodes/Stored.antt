-- ===== src/Fs/Inodes/Stored.antt =====
-- fs/main.c: an inode in the buffer.
use osin32bits.Base.{ℕ, ◌+◌, ◌^◌, ◌≤◌, ◌<◌, ◌≡◌, ◌∙◌, ◌⊎◌, inl, arith}
use osin32bits.Fs.Types.{Inode}
use osin32bits.Fs.Sectors.{
  get32, put32, get32-cong, get32-put32_self, get32-put32_other, put32-other,
}
use osin32bits.Fs.Inodes.{inode_offset, load_inode, store_inode}

-- The fields that go to the disk are u32.
pub record IsStorable (r : Inode) : Type 0 where
  pub mode : r.i_mode < 2 ^ 32
  pub size : r.i_size < 2 ^ 32
  pub start : r.i_start_sect < 2 ^ 32
  pub sects : r.i_nr_sects < 2 ^ 32

-- The fields of `r` that go to the disk, put into `x`.
abbrev pub stored : Inode → Inode → Inode
stored r x = record x {
  i_mode = r.i_mode;
  i_size = r.i_size;
  i_start_sect = r.i_start_sect;
  i_nr_sects = r.i_nr_sects;
}

pub load_inode-cong :
    (b b' : ℕ → ℕ) (num : ℕ) (x : Inode)
    → ((i : ℕ) → inode_offset num ≤ i → i < inode_offset num + 16 → b i ≡ b' i)
    → load_inode b num x ≡ load_inode b' num x
load_inode-cong b b' num x h =
    let o = inode_offset num in
    let a1 = get32-cong b b' o (λ i l u. h i (omega arith) (omega arith)) in
    let a2 = get32-cong b b' (o + 4) (λ i l u. h i (omega arith) (omega arith)) in
    let a3 = get32-cong b b' (o + 8) (λ i l u. h i (omega arith) (omega arith)) in
    let a4 = get32-cong b b' (o + 12) (λ i l u. h i (omega arith) (omega arith)) in
    rw (a1, a2, a3, a4)

-- Four numbers that are put side by side.
abbrev put_fields : (ℕ → ℕ) → (o a b c d : ℕ) → ℕ → ℕ
put_fields m o a b c d = put32 (put32 (put32 (put32 m o a) (o + 4) b) (o + 8) c) (o + 12) d

get32-put_fields :
    (m : ℕ → ℕ) (o a b c d : ℕ)
    → a < 2 ^ 32
    → b < 2 ^ 32
    → c < 2 ^ 32
    → d < 2 ^ 32
    → (get32 (put_fields m o a b c d) o ≡ a)
      × (get32 (put_fields m o a b c d) (o + 4) ≡ b)
      × (get32 (put_fields m o a b c d) (o + 8) ≡ c)
      × (get32 (put_fields m o a b c d) (o + 12) ≡ d)
get32-put_fields m o a b c d ha hb hc hd =
    let m1 = put32 m o a in
    let m2 = put32 m1 (o + 4) b in
    let m3 = put32 m2 (o + 8) c in
    (
      get32-put32_other m3 (o + 12) d o (inl (omega arith))
          ∙ get32-put32_other m2 (o + 8) c o (inl (omega arith))
          ∙ get32-put32_other m1 (o + 4) b o (inl (omega arith))
          ∙ get32-put32_self m o a ha,
      get32-put32_other m3 (o + 12) d (o + 4) (inl (omega arith))
          ∙ get32-put32_other m2 (o + 8) c (o + 4) (inl (omega arith))
          ∙ get32-put32_self m1 (o + 4) b hb,
      get32-put32_other m3 (o + 12) d (o + 8) (inl (omega arith))
          ∙ get32-put32_self m2 (o + 8) c hc,
      get32-put32_self m3 (o + 12) d hd,
    )

pub load_inode-store_inode :
    (b : ℕ → ℕ) (r x : Inode) → IsStorable r → load_inode (store_inode b r) r.i_num x ≡ stored r x
unfolding store_inode
load_inode-store_inode b r x v =
    let (e1, e2, e3, e4) =
      get32-put_fields b (inode_offset r.i_num) r.i_mode r.i_size r.i_start_sect r.i_nr_sects v.mode
        v.size v.start v.sects in
    rw (e1, e2, e3, e4)

pub store_inode-other :
    (b : ℕ → ℕ) (r : Inode) (i : ℕ)
    → ((i < inode_offset r.i_num) ⊎ (inode_offset r.i_num + 16 ≤ i))
    → store_inode b r i ≡ b i
unfolding store_inode
store_inode-other b r i h =
    let o = inode_offset r.i_num in
    let m1 = put32 b o r.i_mode in
    let m2 = put32 m1 (o + 4) r.i_size in
    let m3 = put32 m2 (o + 8) r.i_start_sect in
    put32-other m3 (o + 12) r.i_nr_sects i (ground arith)
    ∙ put32-other m2 (o + 8) r.i_start_sect i (ground arith)
    ∙ put32-other m1 (o + 4) r.i_size i (ground arith)
    ∙ put32-other b o r.i_mode i (ground arith)
