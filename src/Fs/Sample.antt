-- ===== src/Fs/Sample.antt =====
-- A small device with the directory in sector 10, of ".", "a" (the inode 5), "dir" (the inode 1) and,
-- behind the end of the directory, "b". The file "a" has 3 bytes in the sectors from 20 on.
use osin32bits.Base.{
  ℕ, ◌≡◌, refl, inl, inr, none, List, [], ◌∷◌, ok, arith, ◌==◌, if◌then◌else◌, Bool-cases,
}
use osin32bits.Fs.Types.{root_dev, i_directory, Inode, SuperBlock, FileDesc, Fs}
use osin32bits.Fs.Inodes.{get_super_block}
use osin32bits.Fs.Inodes.Table.{IsUnique}

abbrev pub no_inode : Inode
no_inode = record {
  i_mode = 0;
  i_size = 0;
  i_start_sect = 0;
  i_nr_sects = 0;
  i_dev = 0;
  i_cnt = 0;
  i_num = 0;
}

abbrev pub root : Inode
root = record {
  i_mode = i_directory;
  i_size = 48;
  i_start_sect = 10;
  i_nr_sects = 8;
  i_dev = root_dev;
  i_cnt = 1;
  i_num = 1;
}

abbrev pub block : SuperBlock
block = record {
  magic = 0x111;
  nr_imap_sects = 1;
  nr_smap_sects = 1;
  n_1st_sect = 10;
  sb_dev = root_dev;
}

abbrev pub no_desc : FileDesc
no_desc = record { fd_mode = 0; fd_pos = 0; fd_cnt = 0; fd_inode = none }

-- The bytes that are not 0, by their positions.
abbrev pub bytes_at : List (ℕ × ℕ) → ℕ → ℕ
bytes_at [] p = 0
bytes_at ((q, b) ∷ l) p = let rest = bytes_at l p in if p == q then b else rest

abbrev pub device : List (ℕ × ℕ)
device =
    -- the inode 1, in sector 4
    (2049, 0x40)
    ∷ (2052, 48)
    ∷ (2056, 10)
    ∷ (2060, 8)
    -- the inode 5
    ∷ (2177, 0x80)
    ∷ (2180, 3)
    ∷ (2184, 20)
    ∷ (2188, 8)
    -- the directory
    ∷ (5120, 1)
    ∷ (5124, 46)
    ∷ (5136, 5)
    ∷ (5140, 97)
    ∷ (5152, 1)
    ∷ (5156, 100)
    ∷ (5157, 105)
    ∷ (5158, 114)
    ∷ (5168, 9)
    ∷ (5172, 98)
    -- the file
    ∷ (10240, 104)
    ∷ (10241, 105)
    ∷ (10242, 33)
    ∷ []

abbrev pub start : Fs
start = record {
  inode_table = λ i. if i == 0 then root else no_inode;
  f_desc_table = λ i. no_desc;
  super_block = λ i. if i == 0 then block else record block { sb_dev = 0 };
  fsbuf = λ i. 0;
  disk = λ d p. if d == root_dev then bytes_at device p else 0;
  filp = λ p fd. none;
  root_inode = 0;
  opened = [];
}

pub super_block-start :
    (s : Fs) → s.super_block ≡ start.super_block → get_super_block s root_dev ≡ ok block
unfolding get_super_block
super_block-start s e = rw e refl

pub start-IsUnique : IsUnique start.inode_table
start-IsUnique p q dev num hp hq a b = elim (Bool-cases (p == 0)) [
  | inl x ↦ elim (Bool-cases (q == 0)) [
    | inl y ↦ ground arith
    | inr y ↦ absurd (ground (arith, rw y at b))
  ]
  | inr x ↦ absurd (ground (arith, rw x at a))
]
