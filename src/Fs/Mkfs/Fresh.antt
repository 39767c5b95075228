-- ===== src/Fs/Mkfs/Fresh.antt =====
-- fs/main.c `mkfs` and `init_fs`: a device without a file system gets one, and its root is read back.
use osin32bits.Base.{ℕ, zero, suc, ◌+◌, ◌-◌, ◌*◌, ◌≤◌, ◌<◌, ◌≡◌, refl, ap, ◌∙◌, ◌≢◌, ok, arith}
use osin32bits.Fs.Types.{sector_size, root_dev, Fs}
use osin32bits.Fs.Sectors.{
  rd_sect, wr_sect, get32, get32-cong, rd_sect-bytes, disk-wr_sect_self, disk-wr_sect_other,
}
use osin32bits.Fs.Mkfs.{
  put_words, or_bits, filled, smap_sects, first_sect, super_words, root_words, nr_consoles,
  tty_inodes, mk_super, mk_imap, mk_smap, clear_smap, mk_inodes, mk_dir, mkfs,
}

-- The sector `n` of the root device has the bytes.
abbrev pub Holds : Fs → (n : ℕ) → (ℕ → ℕ) → Type 0
Holds s n b = (i : ℕ) → i < sector_size → s.disk root_dev (n * sector_size + i) ≡ b i

Holds-written : (s : Fs) (n : ℕ) → Holds (wr_sect s root_dev n) n s.fsbuf
Holds-written s n i h = disk-wr_sect_self s root_dev n i h

Holds-kept : (s : Fs) (n m : ℕ) (b : ℕ → ℕ) → m ≢ n → Holds s m b → Holds (wr_sect s root_dev n) m b
Holds-kept s n m b ne h i lt = disk-wr_sect_other s root_dev n m i ne lt ∙ h i lt

pub get32-Holds :
    (s t : Fs) (n o : ℕ) (b : ℕ → ℕ)
    → Holds s n b
    → t.disk ≡ s.disk
    → o + 4 ≤ sector_size
    → get32 (rd_sect t root_dev n).fsbuf o ≡ get32 b o
get32-Holds s t n o b h e lt = get32-cong _ b o (λ i l u.
    rd_sect-bytes t root_dev n i (omega arith)
    ∙ ap (λ d. d root_dev (n * sector_size + i)) e
    ∙ h i (omega arith))

clear_smap-Holds :
    (s : Fs) (n i m : ℕ) (b : ℕ → ℕ) → m < 3 + i → Holds s m b → Holds (clear_smap s n i) m b
unfolding clear_smap
clear_smap-Holds s zero i m b lt h = h
clear_smap-Holds s (suc n) i m b lt h =
    clear_smap-Holds (wr_sect s root_dev (2 + 1 + i)) n (i + 1) m b (omega arith)
      (Holds-kept s (2 + 1 + i) m b (λ e. absurd (omega (arith, e))) h)

-- The tables of the task, which `mkfs` leaves alone.
pub record SameTables (s t : Fs) : Type 0 where
  pub inode_table : t.inode_table ≡ s.inode_table
  pub super_block : t.super_block ≡ s.super_block

clear_smap-SameTables : (s : Fs) (n i : ℕ) → SameTables s (clear_smap s n i)
unfolding clear_smap wr_sect
clear_smap-SameTables s zero i = record { inode_table = refl; super_block = refl }
clear_smap-SameTables s (suc n) i =
    let rest = clear_smap-SameTables (wr_sect s root_dev (2 + 1 + i)) n (i + 1) in
    record { inode_table = rest.inode_table; super_block = rest.super_block }

-- What a new file system holds.
pub record IsMade (s : Fs) (size : ℕ) (t : Fs) : Type 0 where
  pub tables : SameTables s t
  pub super : (b : ℕ → ℕ) × Holds t 1 (put_words b 0 (super_words size))
  pub root :
      (b : ℕ → ℕ) × Holds t
        (3 + smap_sects size)
        (tty_inodes (put_words b 0 (root_words size)) nr_consoles 0)

mk_imap-ok : (s : Fs) → (b : ℕ → ℕ) × (mk_imap s ≡ ok (wr_sect (record s { fsbuf = b }) root_dev 2))
unfolding mk_imap or_bits
mk_imap-ok s = (_, refl)

mk_super-Holds :
    (s : Fs) (size : ℕ) → (b : ℕ → ℕ) × Holds (mk_super s size) 1 (put_words b 0 (super_words size))
unfolding mk_super
mk_super-Holds s size =
    let t = filled s 0x90 in
    (t.fsbuf, Holds-written (record t { fsbuf = put_words t.fsbuf 0 (super_words size) }) 1)

mk_smap-Holds : (s : Fs) (m : ℕ) (b : ℕ → ℕ) → m ≢ 3 → Holds s m b → Holds (mk_smap s) m b
unfolding mk_smap
mk_smap-Holds s m b ne h = Holds-kept _ 3 m b ne h

mk_inodes-Holds :
    (s : Fs) (size m : ℕ) (b : ℕ → ℕ)
    → m ≢ 3 + smap_sects size
    → Holds s m b
    → Holds (mk_inodes s size) m b
unfolding mk_inodes
mk_inodes-Holds s size m b ne h = Holds-kept _ (2 + 1 + smap_sects size) m b ne h

mk_inodes-root :
    (s : Fs) (size : ℕ)
    → (b : ℕ → ℕ) × Holds
        (mk_inodes s size)
        (3 + smap_sects size)
        (tty_inodes (put_words b 0 (root_words size)) nr_consoles 0)
unfolding mk_inodes
mk_inodes-root s size =
    let t = filled s 0 in
    (
      t.fsbuf,
      Holds-written
          (record t { fsbuf = tty_inodes (put_words t.fsbuf 0 (root_words size)) nr_consoles 0 })
          (2 + 1 + smap_sects size),
    )

mk_dir-Holds :
    (s : Fs) (size m : ℕ) (b : ℕ → ℕ)
    → m ≢ first_sect size
    → Holds s m b
    → Holds (mk_dir s size) m b
unfolding mk_dir
mk_dir-Holds s size m b ne h = Holds-kept _ (first_sect size) m b ne h

mk_dir-SameTables : (s : Fs) (size : ℕ) → SameTables s (mk_dir (mk_inodes s size) size)
unfolding mk_dir mk_inodes wr_sect
mk_dir-SameTables s size = record { inode_table = refl; super_block = refl }

mk_smap-SameTables :
    (s : Fs) (size : ℕ) (b : ℕ → ℕ)
    → SameTables s
        (filled (mk_smap (wr_sect (record (mk_super s size) { fsbuf = b }) root_dev 2)) 0)
unfolding mk_smap mk_super wr_sect
mk_smap-SameTables s size b = record { inode_table = refl; super_block = refl }

pub mkfs-IsMade : (s : Fs) (size : ℕ) → (t : Fs) × (mkfs s size ≡ ok t) × IsMade s size t
unfolding mkfs
mkfs-IsMade s size =
    let s1 = mk_super s size in
    let (b2, e) = mk_imap-ok s1 in
    let s2 = wr_sect (record s1 { fsbuf = b2 }) root_dev 2 in
    let s3 = filled (mk_smap s2) 0 in
    let n = smap_sects size - 1 in
    let s4 = clear_smap s3 n 1 in
    let s5 = mk_inodes s4 size in
    let (b, at1) = mk_super-Holds s size in
    let super = put_words b 0 (super_words size) in
    let at2 =
      Holds-kept (record s1 { fsbuf = b2 }) 2 1 super (λ e. absurd (omega (arith, e))) at1 in
    let at3 = mk_smap-Holds s2 1 super (λ e. absurd (omega (arith, e))) at2 in
    let at4 = clear_smap-Holds s3 n 1 1 super (omega arith) at3 in
    let at5 = mk_inodes-Holds s4 size 1 super (λ e. absurd (omega (arith, e))) at4 in
    let at6 = mk_dir-Holds s5 size 1 super (λ e. absurd (omega (arith, e))) at5 in
    let (b', root5) = mk_inodes-root s4 size in
    let root =
      mk_dir-Holds s5 size (3 + smap_sects size) _ (λ e. absurd (omega (arith, e))) root5 in
    let before = mk_smap-SameTables s size b2 in
    let middle = clear_smap-SameTables s3 n 1 in
    let after = mk_dir-SameTables s4 size in
    (
      mk_dir s5 size,
      rw e refl,
      record {
        tables = record {
          inode_table = after.inode_table ∙ middle.inode_table ∙ before.inode_table;
          super_block = after.super_block ∙ middle.super_block ∙ before.super_block;
        };
        super = (b, at6);
        root = (b', root);
      },
    )
