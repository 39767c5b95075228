-- ===== src/Fs/Files.antt =====
-- fs/open.c and fs/main.c: file descriptors. A process is its index in the process table, and a text
-- that a message points to is an argument. A descriptor is below NR_FILES. A result of -1 is `none`.
pub mod Seek
pub mod Share
pub mod Taking
pub mod Opened
mod Tests
use osin32bits.Base.{
  ℕ, zero, suc, ◌+◌, ◌-◌, ◌*◌, ◌/◌, ◌%◌, ◌^◌, Option, none, some, List, [], ◌∷◌, ◌++◌, length, Bool,
  true, false, not, ◌||◌, Run, ok, fault, panic, null_pointer, ◌>>=◌, ◌>>◌, assert, ◌==◌, ltb,
  update, if◌then◌else◌, has_flag,
}
use osin32bits.Mm.{slt}
use osin32bits.Fs.Types.{
  nr_files, nr_file_desc, i_regular, i_directory, i_char_special, root_dev, max_path, o_creat,
  o_rdwr, Inode, FileDesc, Fs,
}
use osin32bits.Fs.Inodes.{set_inode, get_inode, put_inode}
use osin32bits.Fs.Path.{strip_path, search_file}
use osin32bits.Fs.Create.{pointer, creat_file}

abbrev pub is_null_at : Option ℕ → Bool
is_null_at none = true
is_null_at (some x) = false

-- The first null pointer of the `n` from `i` on; `i + n` if there is none.
unfoldable pub first_null : (ℕ → Option ℕ) → (n i : ℕ) → ℕ
first_null f zero i = i
first_null f (suc n) i = let next = first_null f n (i + 1) in if is_null_at (f i) then i else next

abbrev pub set_filp : Fs → (p fd : ℕ) → Option ℕ → Fs
set_filp s p fd d = record s { filp = update s.filp p (update (s.filp p) fd d) }

abbrev pub set_desc : Fs → (i : ℕ) → FileDesc → Fs
set_desc s i d = record s { f_desc_table = update s.f_desc_table i d }

-- `i_mode & I_TYPE_MASK`
abbrev pub type_of_mode : ℕ → ℕ
type_of_mode mode = mode / 2 ^ 12 % 2 ^ 4 * 2 ^ 12

-- `MAJOR` and `MINOR`
abbrev pub major : ℕ → ℕ
major dev = dev / 2 ^ 8 % 2 ^ 8

abbrev pub minor : ℕ → ℕ
minor dev = dev % 2 ^ 8

-- What `do_open` does by the type of the inode.
unfoldable pub open_type : Fs → Inode → Run Fs
open_type s r =
    let imode = type_of_mode r.i_mode in
    if imode == i_char_special
    then (do
      assert (major r.i_start_sect == 4)
      ok (record s { opened = s.opened ++ minor r.i_start_sect ∷ [] }))
    else (if imode == i_directory
        then (do assert (r.i_num == root_dev); ok s)
        else (do assert (r.i_mode == i_regular); ok s))

-- The inode that `do_open` opens or creates, if any.
unfoldable pub open_inode : Fs → (flags : ℕ) → (path : List ℕ) → Run (Option ℕ × Fs)
open_inode s flags path =
    let (inode_nr, t) = search_file s path in
    if has_flag flags o_creat
    then (if not (inode_nr == 0) then ok (none, t) else creat_file t path)
    else (do
      assert (has_flag flags o_rdwr)
      elim (strip_path t (some path)) [
        | none ↦ ok (none, t)
        | some (filename, dir) ↦ get_inode t (t.inode_table dir).i_dev inode_nr
      ])

-- The end of `do_open`, for the inode in the slot `pin`.
unfoldable pub open_desc : Fs → (pcaller fd i flags pin : ℕ) → Run (Option ℕ × Fs)
open_desc s pcaller fd i flags pin = do
  let r = s.inode_table pin
  let d = record (s.f_desc_table i) { fd_inode = some pin; fd_mode = flags; fd_pos = r.i_size }
  t ← open_type (set_filp (set_desc s i d) pcaller fd (some i)) r
  ok (some fd, t)

-- `do_open`
unfoldable pub do_open : Fs → (pcaller flags : ℕ) → (path : List ℕ) → Run (Option ℕ × Fs)
do_open s pcaller flags path = do
  assert (ltb (length path) max_path)
  let fd = first_null (s.filp pcaller) nr_files 0
  let i = first_null (λ i. (s.f_desc_table i).fd_inode) nr_file_desc 0
  if (fd == nr_files) || (i == nr_file_desc) then fault panic else (do
    (pin, t) ← open_inode s flags path
    elim pin [ none ↦ ok (none, t) | some p ↦ open_desc t pcaller fd i flags p ])

-- `do_close`
unfoldable pub do_close : Fs → (pcaller fd : ℕ) → Run Fs
do_close s pcaller fd = do
  i ← pointer (s.filp pcaller fd)
  p ← pointer (s.f_desc_table i).fd_inode
  t ← put_inode s p
  ok (set_filp (set_desc t i (record (t.f_desc_table i) { fd_inode = none })) pcaller fd none)

-- The position that `do_lseek` seeks, for a known `whence`.
unfoldable pub seek_target : (pos f_size off whence : ℕ) → Option ℕ
seek_target pos f_size off whence =
    if whence == 1
    then some off
    else (if whence == 2
        then some ((pos + off) % 2 ^ 32)
        else (if whence == 3 then some ((f_size + off) % 2 ^ 32) else none))

-- `do_lseek`; an int is its 32-bit pattern.
unfoldable pub do_lseek : Fs → (pcaller fd off whence : ℕ) → Run (Option ℕ × Fs)
do_lseek s pcaller fd off whence = do
  i ← pointer (s.filp pcaller fd)
  let d = s.f_desc_table i
  p ← pointer d.fd_inode
  let f_size = (s.inode_table p).i_size
  elim (seek_target d.fd_pos f_size off whence) [
    | none ↦ ok (none, s)
    | some pos ↦
        if slt f_size pos || slt pos 0
        then ok (none, s)
        else ok (some pos, set_desc s i (record d { fd_pos = pos }))
  ]

-- The body of the loop of `fs_fork`, for the descriptor `fd` of the child.
unfoldable pub fork_file : Fs → (pid fd : ℕ) → Run Fs
fork_file s pid fd = elim (s.filp pid fd) [
  | none ↦ ok s
  | some i ↦ do
    let d = s.f_desc_table i
    p ← pointer d.fd_inode
    let r = s.inode_table p
    ok (
        set_inode (set_desc s i (record d { fd_cnt = d.fd_cnt + 1 })) p
          (record r { i_cnt = r.i_cnt + 1 }))
]

-- The loop, over the `n` descriptors from `fd` on.
unfoldable pub fork_files : Fs → (pid n fd : ℕ) → Run Fs
fork_files s pid zero fd = ok s
fork_files s pid (suc n) fd = fork_file s pid fd >>= λ t. fork_files t pid n (fd + 1)

-- `fs_fork`
unfoldable pub fs_fork : Fs → (pid : ℕ) → Run Fs
fs_fork s pid = fork_files s pid nr_files 0
