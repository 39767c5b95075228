-- ===== src/Fs/Mkfs/Fields.antt =====
-- fs/main.c: the super block and the root inode on a new file system.
use osin32bits.Base.{ℕ, ◌+◌, ◌*◌, ◌^◌, ◌<◌, ◌≡◌, refl, ap, ◌∙◌, get_or, ok, arith, update, ==_refl}
use osin32bits.Fs.Types.{
  i_directory, dir_entry_size, nr_default_file_sects, root_dev, Inode, SuperBlock, Fs,
}
use osin32bits.Fs.Sectors.{rd_sect, get32, get32-cong}
use osin32bits.Fs.Inodes.{get_super_block}
use osin32bits.Fs.Inodes.Table.{holds}
use osin32bits.Fs.Mkfs.{
  put_words, smap_sects, first_sect, super_words, root_words, nr_consoles, magic_v1,
  load_super_block, free_block, read_super_block,
}
use osin32bits.Fs.Mkfs.Words.{get32-put_words, tty_inodes-before}
use osin32bits.Fs.Mkfs.Fresh.{get32-Holds, IsMade}

-- The state after `read_super_block` on empty tables.
abbrev pub mounted : Fs → (dev : ℕ) → Fs
mounted s dev = record (rd_sect s dev 1) {
  super_block = update s.super_block 0 (load_super_block (rd_sect s dev 1).fsbuf dev);
}

pub read_super_block-mounted :
    (s : Fs) (dev : ℕ) → (s.super_block 0).sb_dev ≡ 0 → read_super_block s dev ≡ ok (mounted s dev)
unfolding read_super_block free_block rd_sect
read_super_block-mounted s dev e = rw e refl

pub get_super_block-mounted :
    (s : Fs) (dev : ℕ)
    → get_super_block (mounted s dev) dev ≡ ok (load_super_block (rd_sect s dev 1).fsbuf dev)
unfolding get_super_block rd_sect
get_super_block-mounted s dev = rw (==_refl dev) refl

-- The fields of the super block and of the root inode on a new file system.
super_field :
    (s t : Fs) (size k : ℕ)
    → IsMade s size t
    → k < 14
    → get_or (super_words size) k 0 < 2 ^ 32
    → get32 (rd_sect t root_dev 1).fsbuf (k * 4) ≡ get_or (super_words size) k 0
super_field s t size k made lt h =
    let (b, holds) = made.super in
    get32-Holds t t 1 (k * 4) _ holds refl (omega arith)
    ∙ ap (get32 (put_words b 0 (super_words size))) (omega arith)
    ∙ get32-put_words b 0 (super_words size) k lt h

pub root_field :
    (s t u : Fs) (size k : ℕ)
    → IsMade s size t
    → u.disk ≡ t.disk
    → k < 4
    → get_or (root_words size) k 0 < 2 ^ 32
    → get32 (rd_sect u root_dev (3 + smap_sects size)).fsbuf (k * 4) ≡ get_or (root_words size) k 0
root_field s t u size k made e lt h =
    let (b, holds) = made.root in
    get32-Holds t u (3 + smap_sects size) (k * 4) _ holds e (omega arith)
    ∙ get32-cong _ (put_words b 0 (root_words size)) (k * 4)
        (λ i l r. tty_inodes-before (put_words b 0 (root_words size)) nr_consoles 0 i (omega arith))
    ∙ ap (get32 (put_words b 0 (root_words size))) (omega arith)
    ∙ get32-put_words b 0 (root_words size) k lt h

-- The root inode of a new file system.
abbrev pub new_root : (size : ℕ) → Inode
new_root size = record {
  i_mode = i_directory;
  i_size = dir_entry_size * 4;
  i_start_sect = first_sect size;
  i_nr_sects = nr_default_file_sects;
  i_dev = root_dev;
  i_cnt = 1;
  i_num = 1;
}

abbrev pub new_block : (size : ℕ) → SuperBlock
new_block size = record {
  magic = magic_v1;
  nr_imap_sects = 1;
  nr_smap_sects = smap_sects size;
  n_1st_sect = first_sect size;
  sb_dev = root_dev;
}

pub load_super_block-new_block :
    (s t : Fs) (size : ℕ)
    → IsMade s size t
    → size < 2 ^ 32
    → load_super_block (rd_sect t root_dev 1).fsbuf root_dev ≡ new_block size
load_super_block-new_block s t size made h =
    let f0 = super_field s t size 0 made (omega arith) (omega arith) in
    let f3 = super_field s t size 3 made (omega arith) (omega arith) in
    let f4 = super_field s t size 4 made (omega arith) (omega arith) in
    let f5 = super_field s t size 5 made (omega arith) (omega arith) in rw (f0, f3, f4, f5) refl
