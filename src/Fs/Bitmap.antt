-- ===== src/Fs/Bitmap.antt =====
-- fs/open.c: the maps of inodes and of sectors.
pub mod Imap
use osin32bits.Base.{
  ℕ, zero, suc, ◌+◌, ◌-◌, ◌*◌, ◌/◌, ◌%◌, ◌^◌, Option, none, some, Bool, not, Run, ok, fault, panic,
  ◌>>=◌, ◌>>◌, assert, ◌==◌, ltb, update, if◌then◌else◌, has_flag, set_flag,
}
use osin32bits.Fs.Types.{sector_size, SuperBlock, Fs}
use osin32bits.Fs.Sectors.{rd_sect, wr_sect}
use osin32bits.Fs.Inodes.{get_super_block}

-- `for (; (byte >> k) & 1; k++)`; the bit 8 of a byte is 0, so `n` is 8 at the start.
unfoldable pub first_zero : (byte n k : ℕ) → ℕ
first_zero byte zero k = k
first_zero byte (suc n) k =
    let next = first_zero byte n (k + 1) in if has_flag byte (2 ^ k) then next else k

-- The first of the `n` bytes from `j` on that is not 0xFF.
unfoldable pub first_byte : (ℕ → ℕ) → (n j : ℕ) → Option ℕ
first_byte b zero j = none
first_byte b (suc n) j = let next = first_byte b n (j + 1) in if b j == 0xFF then next else some j

-- `alloc_imap_bit`: the body of its outer loop returns, so only the first sector is read.
unfoldable pub alloc_imap_bit : Fs → (dev : ℕ) → Run (ℕ × Fs)
alloc_imap_bit s dev = do
  sb ← get_super_block s dev
  let imap_blk0_nr = 1 + 1
  let t = rd_sect s dev imap_blk0_nr
  if sb.nr_imap_sects == 0 then fault panic else elim (first_byte t.fsbuf sector_size 0) [
    | none ↦ ok (0, t)
    | some j ↦
        let k = first_zero (t.fsbuf j) 8 0 in
        let b = update t.fsbuf j (set_flag (t.fsbuf j) (2 ^ k)) in
        ok (j * 8 + k, wr_sect (record t { fsbuf = b }) dev imap_blk0_nr)
  ]

-- The buffer, `nr_sects_to_alloc` and `free_sect_nr`.
pub record Smap : Type 0 where
  pub buf : ℕ → ℕ
  pub to_alloc : ℕ
  pub free_sect_nr : ℕ

-- `for (; k < 8; k++)`, with `n` bits to go: the byte, and what is left to allocate.
unfoldable pub mark_bits : (n k byte to_alloc : ℕ) → Run (ℕ × ℕ)
mark_bits zero k byte to_alloc = ok (byte, to_alloc)
mark_bits (suc n) k byte to_alloc = do
  let byte' = set_flag byte (2 ^ k)
  let next = mark_bits n (k + 1) byte' (to_alloc - 1)
  assert (not (has_flag byte (2 ^ k)))
  if to_alloc - 1 == 0 then ok (byte', 0) else next

-- The bits of the byte `j` from `k` on.
abbrev pub mark_byte : Smap → (j k : ℕ) → Run Smap
mark_byte m j k = do
  (byte, left) ← mark_bits (8 - k) k (m.buf j) m.to_alloc
  ok (record m { buf = update m.buf j byte; to_alloc = left })

-- The body of the inner loop, at the byte `j` of the sector `i` of the map.
unfoldable pub alloc_byte : (n_1st_sect i j : ℕ) → Smap → Run Smap
alloc_byte n_1st_sect i j m =
    let k = first_zero (m.buf j) 8 0 in
    let first = ((i * sector_size + j) * 8 + k + (2 ^ 32 - 1) + n_1st_sect) % 2 ^ 32 in
    if m.free_sect_nr == 0
    then (if m.buf j == 0xFF then ok m else mark_byte (record m { free_sect_nr = first }) j k)
    else mark_byte m j 0

-- The inner loop, over the `n` bytes from `j` on.
unfoldable pub alloc_bytes : (n_1st_sect i n j : ℕ) → Smap → Run Smap
alloc_bytes n_1st_sect i zero j m = ok m
alloc_bytes n_1st_sect i (suc n) j m =
    let rest = alloc_byte n_1st_sect i j m >>= alloc_bytes n_1st_sect i n (j + 1) in
    if m.to_alloc == 0 then ok m else rest

-- The outer loop, over the `n` sectors of the map from `i` on.
unfoldable pub alloc_sects :
    Fs → (dev smap_blk0_nr n_1st_sect n i to_alloc free_sect_nr : ℕ) → Run (ℕ × ℕ × Fs)
alloc_sects s dev smap_blk0_nr n_1st_sect zero i to_alloc free_sect_nr =
    ok (to_alloc, free_sect_nr, s)
alloc_sects s dev smap_blk0_nr n_1st_sect (suc n) i to_alloc free_sect_nr = do
  let t = rd_sect s dev (smap_blk0_nr + i)
  m ←
      alloc_bytes n_1st_sect i sector_size 0
        (record { buf = t.fsbuf; to_alloc = to_alloc; free_sect_nr = free_sect_nr })
  let u = record t { fsbuf = m.buf }
  let v = if m.free_sect_nr == 0 then u else wr_sect u dev (smap_blk0_nr + i)
  let rest = alloc_sects v dev smap_blk0_nr n_1st_sect n (i + 1) m.to_alloc m.free_sect_nr
  if m.to_alloc == 0 then ok (0, m.free_sect_nr, v) else rest

-- `alloc_smap_bit`
unfoldable pub alloc_smap_bit : Fs → (dev nr_sects_to_alloc : ℕ) → Run (ℕ × Fs)
alloc_smap_bit s dev nr_sects_to_alloc = do
  sb ← get_super_block s dev
  (left, free_sect_nr, t) ←
      alloc_sects s dev (1 + 1 + sb.nr_imap_sects) sb.n_1st_sect sb.nr_smap_sects 0
        nr_sects_to_alloc 0
  assert (left == 0)
  ok (free_sect_nr, t)
