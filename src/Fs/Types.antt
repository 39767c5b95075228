-- ===== src/Fs/Types.antt =====
-- include/fs.h and include/const.h: the tables of the file system. A pointer into a table is an index,
-- and a null pointer is `none`. The u32 fields are below 2 ^ 32.
use osin32bits.Base.{ℕ, Option, List}

abbrev pub sector_size : ℕ
sector_size = 512

abbrev pub inode_size : ℕ
inode_size = 32

abbrev pub dir_entry_size : ℕ
dir_entry_size = 16

abbrev pub max_filename_len : ℕ
max_filename_len = 12

abbrev pub nr_files : ℕ
nr_files = 64

abbrev pub nr_file_desc : ℕ
nr_file_desc = 64

abbrev pub nr_inode : ℕ
nr_inode = 64

abbrev pub nr_super_block : ℕ
nr_super_block = 8

abbrev pub nr_default_file_sects : ℕ
nr_default_file_sects = 2048

abbrev pub i_regular : ℕ
i_regular = 0x8000

abbrev pub i_directory : ℕ
i_directory = 0x4000

abbrev pub i_char_special : ℕ
i_char_special = 0x2000

-- ROOT_DEV
abbrev pub root_dev : ℕ
root_dev = 0x320

abbrev pub max_path : ℕ
max_path = 128

abbrev pub o_creat : ℕ
o_creat = 1

abbrev pub o_rdwr : ℕ
o_rdwr = 2

-- `struct inode`
pub record Inode : Type 0 where
  pub i_mode : ℕ
  pub i_size : ℕ
  pub i_start_sect : ℕ
  pub i_nr_sects : ℕ
  pub i_dev : ℕ
  pub i_cnt : ℕ
  pub i_num : ℕ

-- `struct super_block`: the fields that the code reads.
pub record SuperBlock : Type 0 where
  pub magic : ℕ
  pub nr_imap_sects : ℕ
  pub nr_smap_sects : ℕ
  pub n_1st_sect : ℕ
  pub sb_dev : ℕ

-- `struct file_desc`
pub record FileDesc : Type 0 where
  pub fd_mode : ℕ
  pub fd_pos : ℕ
  pub fd_cnt : ℕ
  pub fd_inode : Option ℕ

-- The state of the task. `disk d p` is the byte at position `p` of device `d`, and `filp p fd` is
-- `proc_table[p].filp[fd]`. `opened` lists the minor numbers of the messages DEV_OPEN to the terminals.
pub record Fs : Type 0 where
  pub inode_table : ℕ → Inode
  pub f_desc_table : ℕ → FileDesc
  pub super_block : ℕ → SuperBlock
  pub fsbuf : ℕ → ℕ
  pub disk : ℕ → ℕ → ℕ
  pub filp : ℕ → ℕ → Option ℕ
  pub root_inode : ℕ
  pub opened : List ℕ
