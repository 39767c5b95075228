-- ===== src/Fs/Files/Tests.antt =====
-- Files of the sample device: a seek, opening a file and a directory, and a fork.
use osin32bits.Base.{
  ℕ, zero, suc, ◌+◌, ◌-◌, ◌^◌, ◌<◌, ◌≡◌, refl, sym, ap, ◌∙◌, ◌≢◌, Option, none, some, List, length,
  [], ◌∷◌, Run, ok, fault, null_pointer, assertion, arith, ◌==◌, if◌then◌else◌,
}
use osin32bits.Fs.Types.{root_dev, i_regular, i_directory, Fs}
use osin32bits.Fs.Inodes.{get_inode}
use osin32bits.Fs.Path.{strip_path, search_file}
use osin32bits.Fs.Files.{type_of_mode, seek_target, do_lseek, fs_fork, do_open, do_close}
use osin32bits.Fs.Files.Seek.{Sought, do_lseek-Sought}
use osin32bits.Fs.Files.Share.{
  inode_of, AllOpen, HasForked, users, fs_fork-HasForked, fs_fork-do_close,
}
use osin32bits.Fs.Files.Taking.{IsOpenable}
use osin32bits.Fs.Files.Opened.{IsRestored, do_open-directory, do_open-do_close}
use osin32bits.Fs.Sample.{block, no_desc, start, super_block-start, start-IsUnique}

-- The processes 7 and 8 share the descriptor 0, of the inode in slot 0.
abbrev shared_file : Fs
shared_file = record start {
  f_desc_table = λ i. record no_desc { fd_pos = 48; fd_inode = some 0 };
  filp = λ p fd. if fd == 0 then some 0 else none;
}

AllOpen-all :
    (files inodes : ℕ → Option ℕ)
    → ((fd i : ℕ) → files fd ≡ some i → (k : ℕ) × (inodes i ≡ some k))
    → (n fd : ℕ) → AllOpen files inodes n fd
AllOpen-all files inodes h zero fd = tt
AllOpen-all files inodes h (suc n) fd = (h fd, AllOpen-all files inodes h n (fd + 1))

shared_file-AllOpen : AllOpen (shared_file.filp 8) (inode_of shared_file) 64 0
shared_file-AllOpen =
    AllOpen-all (shared_file.filp 8) (inode_of shared_file) (λ fd i e. (0, refl)) 64 0

do_lseek-Sought_example :
    Sought shared_file 0 48
      (seek_target 48 48 (2 ^ 32 - 8) 2)
      (do_lseek shared_file 7 0 (2 ^ 32 - 8) 2)
do_lseek-Sought_example =
    do_lseek-Sought shared_file 7 0 (2 ^ 32 - 8) 2 0 0 refl refl (omega arith) (omega arith)

fs_fork-HasForked_example :
    (t : Fs) × (fs_fork shared_file 8 ≡ ok t)
    × HasForked shared_file (λ k. users (shared_file.filp 8) (inode_of shared_file) k 64 0) t
fs_fork-HasForked_example = fs_fork-HasForked shared_file 8 shared_file-AllOpen

fs_fork-do_close_example :
    (t : Fs) × (u : Fs) × (fs_fork shared_file 8 ≡ ok t)
    × (do_close t 7 0 ≡ ok u)
    × (do_close u 8 0 ≡ fault null_pointer)
fs_fork-do_close_example =
    fs_fork-do_close shared_file 7 8 0 0 0 (λ e. absurd (omega (arith, e))) shared_file-AllOpen refl
      refl refl (omega arith)

openable :
    (path : List ℕ) (nr : ℕ)
    → length path < 128
    → (search_file start path).0 ≡ nr
    → nr ≢ 0
    → strip_path start (some path) ≡ some (path, 0)
    → IsOpenable start 7 2 path root_dev nr block
unfolding osin32bits.Fs.Files.first_null
openable path nr short found ne named = record {
  short = short;
  has_filp = λ e. absurd (omega (arith, e));
  has_desc = λ e. absurd (omega (arith, e));
  rdwr = refl;
  no_creat = refl;
  found = found;
  named = (path, 0, named, refl);
  is_number = ne;
  has_sb = super_block-start start refl;
  is_unique = start-IsUnique;
  has_slot = (1, omega arith, refl);
}

-- The mode and the number of an inode that is got.
abbrev mode_of : Run (Option ℕ × Fs) → ℕ
mode_of (ok (some q, t)) = (t.inode_table q).i_mode
mode_of (ok (none, t)) = 0
mode_of (fault e) = 0

abbrev num_of : Run (Option ℕ × Fs) → ℕ
num_of (ok (some q, t)) = (t.inode_table q).i_num
num_of (ok (none, t)) = 0
num_of (fault e) = 0

a-IsOpenable : IsOpenable start 7 2 (97 ∷ []) root_dev 5 block
unfolding search_file osin32bits.Fs.Path.search_sectors osin32bits.Fs.Path.search_sector strip_path
    osin32bits.Fs.Path.copy_name osin32bits.Text.memcmp osin32bits.Fs.Sectors.rd_sect
a-IsOpenable = openable (97 ∷ []) 5 (omega arith) refl (λ e. absurd (omega (arith, e))) refl

dir-IsOpenable : IsOpenable start 7 2 (100 ∷ 105 ∷ 114 ∷ []) root_dev 1 block
unfolding search_file osin32bits.Fs.Path.search_sectors osin32bits.Fs.Path.search_sector strip_path
    osin32bits.Fs.Path.copy_name osin32bits.Text.memcmp osin32bits.Fs.Sectors.rd_sect
dir-IsOpenable =
    openable (100 ∷ 105 ∷ 114 ∷ []) 1 (omega arith) refl (λ e. absurd (omega (arith, e))) refl

a_mode : mode_of (get_inode (search_file start (97 ∷ [])).1 root_dev 5) ≡ i_regular
unfolding get_inode osin32bits.Fs.Inodes.find_inode osin32bits.Fs.Inodes.read_inode
    osin32bits.Fs.Inodes.get_super_block search_file osin32bits.Fs.Path.search_sectors
    osin32bits.Fs.Path.search_sector strip_path osin32bits.Fs.Path.copy_name osin32bits.Text.memcmp
    osin32bits.Fs.Sectors.rd_sect
a_mode = refl

dir_mode :
    (mode_of (get_inode (search_file start (100 ∷ 105 ∷ 114 ∷ [])).1 root_dev 1) ≡ i_directory)
    × (num_of (get_inode (search_file start (100 ∷ 105 ∷ 114 ∷ [])).1 root_dev 1) ≡ 1)
unfolding get_inode osin32bits.Fs.Inodes.find_inode search_file osin32bits.Fs.Path.search_sectors
    osin32bits.Fs.Path.search_sector strip_path osin32bits.Fs.Path.copy_name osin32bits.Text.memcmp
    osin32bits.Fs.Sectors.rd_sect
dir_mode = (refl, refl)

do_open-do_close_example :
    (q : ℕ) × (t : Fs) × (u : Fs) × (do_open start 7 2 (97 ∷ []) ≡ ok (some 0, t))
    × (t.filp 7 0 ≡ some 0)
    × (inode_of t 0 ≡ some q)
    × ((t.f_desc_table 0).fd_pos ≡ (t.inode_table q).i_size)
    × (do_close t 7 0 ≡ ok u)
    × IsRestored start u
unfolding osin32bits.Fs.Files.first_null
do_open-do_close_example =
    do_open-do_close start 7 2 (97 ∷ []) root_dev 5 block a-IsOpenable
      (λ q t e. sym (ap mode_of e) ∙ a_mode)

do_open-directory_example : do_open start 7 2 (100 ∷ 105 ∷ 114 ∷ []) ≡ fault assertion
do_open-directory_example =
    do_open-directory start 7 2 (100 ∷ 105 ∷ 114 ∷ []) root_dev 1 block dir-IsOpenable (λ q t e. (
      ap type_of_mode (sym (ap mode_of e) ∙ dir_mode.0),
      λ x. absurd (omega (arith, x, sym (ap num_of e) ∙ dir_mode.1)),
    ))
