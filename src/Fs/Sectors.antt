-- ===== src/Fs/Sectors.antt =====
-- fs/main.c `rw_sector`: sectors of the disk in the buffer of the task, for requests that the driver
-- ends: those of at most 256 sectors, since its count has 8 bits. A position fits into an int. Numbers lie in memory with the lowest
-- byte first.
use osin32bits.Base.{
  ℕ, ◌+◌, ◌-◌, ◌*◌, ◌/◌, ◌%◌, ◌^◌, ◌≤◌, ◌<◌, ◌≡◌, refl, ap, ◌∙◌, ◌⊎◌, inl, inr, ◌&&◌, true, arith,
  ◌==◌, update, ltb, leb, if◌then◌else◌, fun_ext, ◌≢◌,
}
use osin32bits.Fs.Types.{sector_size, Fs}

-- The most sectors of a request that the driver of the disk ends.
abbrev pub max_request_sects : ℕ
max_request_sects = 256

-- `rw_sector(DEV_READ, dev, pos, bytes, TASK_FS, fsbuf)`, for at most that many sectors
unfoldable pub read_disk : Fs → (dev pos bytes : ℕ) → Fs
read_disk s dev pos bytes = record s {
  fsbuf = λ i. if ltb i bytes then s.disk dev (pos + i) else s.fsbuf i;
}

-- `rw_sector(DEV_WRITE, dev, pos, bytes, TASK_FS, fsbuf)`, for at most that many sectors
unfoldable pub write_disk : Fs → (dev pos bytes : ℕ) → Fs
write_disk s dev pos bytes = record s {
  disk = λ d p.
      if d == dev && (leb pos p && ltb p (pos + bytes)) then s.fsbuf (p - pos) else s.disk d p;
}

-- `RD_SECT` and `WR_SECT`
unfoldable pub rd_sect : Fs → (dev sect_nr : ℕ) → Fs
unfolding read_disk
rd_sect s dev sect_nr = read_disk s dev (sect_nr * sector_size) sector_size

unfoldable pub wr_sect : Fs → (dev sect_nr : ℕ) → Fs
unfolding write_disk
wr_sect s dev sect_nr = write_disk s dev (sect_nr * sector_size) sector_size

-- The u32 at an offset of the buffer.
abbrev pub get32 : (ℕ → ℕ) → ℕ → ℕ
get32 b o = b o + b (o + 1) * 2 ^ 8 + b (o + 2) * 2 ^ 16 + b (o + 3) * 2 ^ 24

unfoldable pub put32 : (ℕ → ℕ) → (o v : ℕ) → ℕ → ℕ
put32 b o v i =
    if leb o i && ltb i (o + 4)
    then v
      / (if i == o then 1 else if i == o + 1 then 2 ^ 8 else if i == o + 2 then 2 ^ 16 else 2 ^ 24)
      % 2 ^ 8
    else b i

pub get32-put32_self : (b : ℕ → ℕ) (o v : ℕ) → v < 2 ^ 32 → get32 (put32 b o v) o ≡ v
unfolding put32
get32-put32_self b o v h = ground arith

pub put32-other : (b : ℕ → ℕ) (o v i : ℕ) → ((i < o) ⊎ (o + 4 ≤ i)) → put32 b o v i ≡ b i
unfolding put32
put32-other b o v i h = ground arith

pub get32-cong :
    (b b' : ℕ → ℕ) (o : ℕ) → ((i : ℕ) → o ≤ i → i < o + 4 → b i ≡ b' i) → get32 b o ≡ get32 b' o
get32-cong b b' o h = ground (
  arith,
  h o (omega arith) (omega arith),
  h (o + 1) (omega arith) (omega arith),
  h (o + 2) (omega arith) (omega arith),
  h (o + 3) (omega arith) (omega arith),
)

-- The same four bytes at two places.
pub get32-shift :
    (b b' : ℕ → ℕ) (o o' : ℕ)
    → ((i : ℕ) → i < 4 → b (o + i) ≡ b' (o' + i))
    → get32 b o ≡ get32 b' o'
get32-shift b b' o o' h =
    let first : b o ≡ b' o' = ap b (omega arith) ∙ h 0 (omega arith) ∙ ap b' (omega arith) in
    ground (arith, first, h 1 (omega arith), h 2 (omega arith), h 3 (omega arith))

pub get32-put32_other :
    (b : ℕ → ℕ) (o v o' : ℕ) → ((o' + 4 ≤ o) ⊎ (o + 4 ≤ o')) → get32 (put32 b o v) o' ≡ get32 b o'
get32-put32_other b o v o' (inl h) =
    get32-cong (put32 b o v) b o' (λ i l u. put32-other b o v i (inl (omega arith)))
get32-put32_other b o v o' (inr h) =
    get32-cong (put32 b o v) b o' (λ i l u. put32-other b o v i (inr (omega arith)))

-- A sector that is written is read back.
pub rd_sect-wr_sect_self : (s : Fs) (dev n : ℕ) → (rd_sect (wr_sect s dev n) dev n).fsbuf ≡ s.fsbuf
unfolding rd_sect wr_sect
rd_sect-wr_sect_self s dev n = fun_ext (λ i. ground arith)

-- Other sectors stay.
pub rd_sect-wr_sect_other :
    (s : Fs) (dev n m i : ℕ)
    → m ≢ n
    → i < sector_size
    → (rd_sect (wr_sect s dev n) dev m).fsbuf i ≡ (rd_sect s dev m).fsbuf i
unfolding rd_sect wr_sect
rd_sect-wr_sect_other s dev n m i ne h = ground arith

-- What is read depends on the disk alone.
pub rd_sect-disk :
    (s t : Fs) (dev n i : ℕ)
    → s.disk ≡ t.disk
    → i < sector_size
    → (rd_sect s dev n).fsbuf i ≡ (rd_sect t dev n).fsbuf i
unfolding rd_sect
rd_sect-disk s t dev n i e h =
    let inside : ltb i sector_size ≡ true = ground arith in rw (inside, e)

pub disk-rd_sect : (s : Fs) (dev n : ℕ) → (rd_sect s dev n).disk ≡ s.disk
unfolding rd_sect
disk-rd_sect s dev n = refl

pub inode_table-rd_sect : (s : Fs) (dev n : ℕ) → (rd_sect s dev n).inode_table ≡ s.inode_table
unfolding rd_sect
inode_table-rd_sect s dev n = refl

pub inode_table-wr_sect : (s : Fs) (dev n : ℕ) → (wr_sect s dev n).inode_table ≡ s.inode_table
unfolding wr_sect
inode_table-wr_sect s dev n = refl

pub rd_sect-bytes :
    (s : Fs) (dev n i : ℕ)
    → i < sector_size
    → (rd_sect s dev n).fsbuf i ≡ s.disk dev (n * sector_size + i)
unfolding rd_sect
rd_sect-bytes s dev n i h = ground arith

-- Two states that agree but for the buffer.
abbrev pub SameButBuffer : Fs → Fs → Type 0
SameButBuffer s t = t ≡ record s { fsbuf = t.fsbuf }

pub SameButBuffer-trans : (s t u : Fs) → SameButBuffer s t → SameButBuffer t u → SameButBuffer s u
SameButBuffer-trans s t u st tu = tu ∙ ap (λ (t' : Fs). record t' { fsbuf = u.fsbuf }) st

pub rd_sect-SameButBuffer : (s : Fs) (dev n : ℕ) → SameButBuffer s (rd_sect s dev n)
unfolding rd_sect
rd_sect-SameButBuffer s dev n = refl

-- One byte of a sector is replaced.
pub wr_sect-update :
    (s : Fs) (dev n j v : ℕ) (t : Fs)
    → j < sector_size
    → t ≡ wr_sect (record (rd_sect s dev n) { fsbuf = update (rd_sect s dev n).fsbuf j v }) dev n
    → (t.disk dev (n * sector_size + j) ≡ v)
      × ((d p : ℕ) → ((d ≢ dev) ⊎ (p ≢ n * sector_size + j)) → t.disk d p ≡ s.disk d p)
unfolding rd_sect wr_sect
wr_sect-update s dev n j v t h e = rw e (ground arith, λ d p ne. ground arith)

-- The bytes of the disk after a write of a sector.
pub disk-wr_sect_self :
    (s : Fs) (dev n i : ℕ)
    → i < sector_size
    → (wr_sect s dev n).disk dev (n * sector_size + i) ≡ s.fsbuf i
unfolding wr_sect
disk-wr_sect_self s dev n i h = ground arith

pub disk-wr_sect_other :
    (s : Fs) (dev n m i : ℕ)
    → m ≢ n
    → i < sector_size
    → (wr_sect s dev n).disk dev (m * sector_size + i) ≡ s.disk dev (m * sector_size + i)
unfolding wr_sect
disk-wr_sect_other s dev n m i ne h = ground arith
