-- ===== src/Fs/Mkfs.antt =====
-- fs/main.c `mkfs`, `read_super_block` and `init_fs`. The number of sectors of the device is what the
-- driver answers to DIOCTL_GET_GEO.
pub mod Words
pub mod Fresh
pub mod Fields
pub mod Mounted
mod Tests
use osin32bits.Base.{
  ℕ, zero, suc, ◌+◌, ◌-◌, ◌*◌, ◌/◌, ◌%◌, ◌^◌, Option, none, some, List, [], ◌∷◌, ◌++◌, Bool, not,
  Run, ok, fault, panic, ◌>>=◌, ◌>>◌, assert, ◌==◌, ltb, update, if◌then◌else◌, set_flag,
}
use osin32bits.Text.Format.{vsprintf}
use osin32bits.Fs.Types.{
  sector_size, inode_size, dir_entry_size, nr_super_block, nr_default_file_sects, i_directory,
  i_char_special, root_dev, Inode, SuperBlock, FileDesc, Fs,
}
use osin32bits.Fs.Sectors.{rd_sect, wr_sect, get32, put32}
use osin32bits.Fs.Inodes.{get_super_block, get_inode}
use osin32bits.Fs.Create.{pointer, put_text}

abbrev pub magic_v1 : ℕ
magic_v1 = 0x111

abbrev pub nr_consoles : ℕ
nr_consoles = 3

-- `memset(fsbuf, v, SECTOR_SIZE)`
abbrev pub filled : Fs → (v : ℕ) → Fs
filled s v = record s { fsbuf = λ i. if ltb i sector_size then v else s.fsbuf i }

-- Consecutive fields of a struct.
unfoldable pub put_words : (ℕ → ℕ) → (o : ℕ) → List ℕ → ℕ → ℕ
put_words b o [] = b
put_words b o (w ∷ ws) = put_words (put32 b o w) (o + 4) ws

-- `for (k = 0; k < n; k++) byte |= 1 << k`, from `k` on.
unfoldable pub or_bits : (n k byte : ℕ) → ℕ
or_bits zero k byte = byte
or_bits (suc n) k byte = or_bits n (k + 1) (set_flag byte (2 ^ k))

-- `nr_smap_sects`, `n_1st_sect` and the fields of the super block.
abbrev pub bits_per_sect : ℕ
bits_per_sect = sector_size * 8

abbrev pub smap_sects : (size : ℕ) → ℕ
smap_sects size = size / bits_per_sect + 1

abbrev pub inode_sects : ℕ
inode_sects = bits_per_sect * inode_size / sector_size

abbrev pub first_sect : (size : ℕ) → ℕ
first_sect size = 1 + 1 + 1 + smap_sects size + inode_sects

abbrev pub super_words : (size : ℕ) → List ℕ
super_words size =
    magic_v1
    ∷ bits_per_sect
    ∷ size
    ∷ 1
    ∷ smap_sects size
    ∷ first_sect size
    ∷ inode_sects
    ∷ 1
    ∷ inode_size
    ∷ 4
    ∷ 8
    ∷ dir_entry_size
    ∷ 0
    ∷ 4
    ∷ []

unfoldable pub mk_super : Fs → (size : ℕ) → Fs
mk_super s size =
    let t = filled s 0x90 in
    wr_sect (record t { fsbuf = put_words t.fsbuf 0 (super_words size) }) root_dev 1

unfoldable pub mk_imap : Fs → Run Fs
mk_imap s = do
  let t = filled s 0
  let byte = or_bits (nr_consoles + 2) 0 (t.fsbuf 0)
  assert (byte == 0x1F)
  ok (wr_sect (record t { fsbuf = update t.fsbuf 0 byte }) root_dev 2)

unfoldable pub mk_smap : Fs → Fs
mk_smap s =
    let t = filled s 0 in
    let n = nr_default_file_sects + 1 in
    let b : ℕ → ℕ = λ i. if ltb i (n / 8) then 0xFF else t.fsbuf i in
    wr_sect (record t { fsbuf = update b (n / 8) (or_bits (n % 8) 0 (b (n / 8))) }) root_dev (2 + 1)

-- `for (i = 1; i < sb.nr_smap_sects; i++)`, with `n` sectors to go.
unfoldable pub clear_smap : Fs → (n i : ℕ) → Fs
clear_smap s zero i = s
clear_smap s (suc n) i = clear_smap (wr_sect s root_dev (2 + 1 + i)) n (i + 1)

-- The inodes of the terminals, `n` of them from `i` on.
unfoldable pub tty_inodes : (ℕ → ℕ) → (n i : ℕ) → ℕ → ℕ
tty_inodes b zero i = b
tty_inodes b (suc n) i =
    tty_inodes (put_words b (inode_size * (i + 1)) (i_char_special ∷ 0 ∷ (4 * 2 ^ 8 + i) ∷ 0 ∷ []))
      n (i + 1)

abbrev pub root_words : (size : ℕ) → List ℕ
root_words size = i_directory ∷ dir_entry_size * 4 ∷ first_sect size ∷ nr_default_file_sects ∷ []

unfoldable pub mk_inodes : Fs → (size : ℕ) → Fs
mk_inodes s size =
    let t = filled s 0 in
    wr_sect (record t { fsbuf = tty_inodes (put_words t.fsbuf 0 (root_words size)) nr_consoles 0 })
      root_dev (2 + 1 + smap_sects size)

-- `sprintf(pde->name, "dev_tty%d", i)`
abbrev pub tty_name : (i : ℕ) → List ℕ
tty_name i =
    elim (vsprintf (λ a. []) (λ k. i) (100 ∷ 101 ∷ 118 ∷ 95 ∷ 116 ∷ 116 ∷ 121 ∷ 37 ∷ 100 ∷ [])) [
      | none ↦ []
      | some (t, n) ↦ t
    ]

unfoldable pub tty_entries : (ℕ → ℕ) → (n i : ℕ) → ℕ → ℕ
tty_entries b zero i = b
tty_entries b (suc n) i =
    let o = dir_entry_size * (i + 1) in
    tty_entries (put_text (put32 b o (i + 2)) (o + 4) (tty_name i)) n (i + 1)

unfoldable pub mk_dir : Fs → (size : ℕ) → Fs
mk_dir s size =
    let t = filled s 0 in
    wr_sect
      (record t { fsbuf = tty_entries (put_text (put32 t.fsbuf 0 1) 4 (46 ∷ [])) nr_consoles 0 })
      root_dev (first_sect size)

-- `mkfs`
unfoldable pub mkfs : Fs → (size : ℕ) → Run Fs
mkfs s size = do
  t ← mk_imap (mk_super s size)
  ok (mk_dir (mk_inodes (clear_smap (filled (mk_smap t) 0) (smap_sects size - 1) 1) size) size)

-- The fields of a super block that the code reads.
abbrev pub load_super_block : (ℕ → ℕ) → (dev : ℕ) → SuperBlock
load_super_block b dev = record {
  magic = get32 b 0;
  nr_imap_sects = get32 b 12;
  nr_smap_sects = get32 b 16;
  n_1st_sect = get32 b 20;
  sb_dev = dev;
}

-- The first slot of the `n` slots from `i` on without a device; NO_DEV is 0.
unfoldable pub free_block : (ℕ → SuperBlock) → (n i : ℕ) → ℕ
free_block t zero i = i
free_block t (suc n) i = let next = free_block t n (i + 1) in if (t i).sb_dev == 0 then i else next

-- `read_super_block`
unfoldable pub read_super_block : Fs → (dev : ℕ) → Run Fs
read_super_block s dev = do
  let t = rd_sect s dev 1
  let i = free_block t.super_block nr_super_block 0
  if i == nr_super_block then fault panic else (do
    assert (i == 0)
    ok (record t { super_block = update t.super_block i (load_super_block t.fsbuf dev) }))

-- The tables that `init_fs` clears.
abbrev pub clear_tables : Fs → Fs
clear_tables s = record s {
  f_desc_table = λ i. record { fd_mode = 0; fd_pos = 0; fd_cnt = 0; fd_inode = none };
  inode_table = λ i. record {
    i_mode = 0;
    i_size = 0;
    i_start_sect = 0;
    i_nr_sects = 0;
    i_dev = 0;
    i_cnt = 0;
    i_num = 0;
  };
  super_block = λ i. record (s.super_block i) { sb_dev = 0 };
}

-- The end of `init_fs`, when the device has a file system.
unfoldable pub mount_root : Fs → Run Fs
mount_root s = do
  t ← read_super_block s root_dev
  sb ← get_super_block t root_dev
  assert (sb.magic == magic_v1)
  (found, u) ← get_inode t root_dev 1
  root ← pointer found
  ok (record u { root_inode = root })

-- `init_fs`
unfoldable pub init_fs : Fs → (size : ℕ) → Run Fs
init_fs s size =
    let t = rd_sect (clear_tables s) root_dev 1 in
    if not (get32 t.fsbuf 0 == magic_v1) then mkfs t size >>= mount_root else mount_root t
