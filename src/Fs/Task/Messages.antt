-- ===== src/Fs/Task/Messages.antt =====
-- fs/main.c `task_fs`: what a process sees that writes a file and reads it again.
use osin32bits.Base.{
  ℕ, ◌+◌, ◌*◌, ◌≤◌, ◌<◌, ◌≡◌, refl, ap, ◌∙◌, true, false, none, some, List, ok, arith, ◌==◌, ltb,
  has_flag,
}
use osin32bits.Proc.Types.{Message}
use osin32bits.Tty.Task.{syscall_ret}
use osin32bits.Fs.Types.{
  sector_size, nr_file_desc, nr_inode, i_regular, o_rdwr, Inode, FileDesc, SuperBlock, Fs,
}
use osin32bits.Fs.Sectors.{max_request_sects}
use osin32bits.Fs.ReadWrite.{Direction, reading, writing, rdwt_file, do_rdwt}
use osin32bits.Fs.ReadWrite.Write.{Fits}
use osin32bits.Fs.ReadWrite.RoundTrip.{rdwt_file-round_trip}
use osin32bits.Fs.Task.{
  msg_open, msg_close, msg_read, msg_write, Answer, terminal_of, answer_rdwt, answer_fs,
}

-- The descriptor `fd` of a process is open for reading and writing a regular file.
pub record IsOpen (s : Fs) (p fd desc pin : ℕ) : Type 0 where
  pub filp : s.filp p fd ≡ some desc
  pub in_table : desc < nr_file_desc
  pub rdwr : has_flag (s.f_desc_table desc).fd_mode o_rdwr ≡ true
  pub inode : (s.f_desc_table desc).fd_inode ≡ some pin
  pub in_inodes : pin < nr_inode
  pub regular : (s.inode_table pin).i_mode ≡ i_regular

-- The answer to a message, with a count in it.
abbrev pub counted_answer : Fs → (buf : ℕ → ℕ) → Message → (n : ℕ) → Answer
counted_answer t b msg n = record {
  fs = t;
  buf = b;
  reply = some (msg.source, record msg { m3i2 = n; type = syscall_ret });
}

module _ (driver : Direction → (dev cnt : ℕ) → Message) (s : Fs) (msg : Message) (desc pin : ℕ)
    (at : IsOpen s msg.source msg.m3i1 desc pin) (buf : ℕ → ℕ) (n : ℕ) (t : Fs) (b : ℕ → ℕ) where
  do_rdwt-rdwt_file :
      (dir : Direction) (count : Direction → (dev cnt : ℕ) → ℕ)
      → rdwt_file s dir desc pin msg.m3i2 buf ≡ ok (n, t, b)
      → do_rdwt count s dir msg.source msg.m3i1 msg.m3i2 buf ≡ ok (some n, t, b)
  unfolding do_rdwt
  do_rdwt-rdwt_file dir count e =
      let low : ltb desc nr_file_desc ≡ true = ground (arith, at.in_table) in
      let low_inode : ltb pin nr_inode ≡ true = ground (arith, at.in_inodes) in
      rw (at.filp, low, at.rdwr, at.inode, low_inode, at.regular, e) refl

  no_terminal : terminal_of s msg.source msg.m3i1 ≡ none
  unfolding terminal_of
  no_terminal = rw (at.filp, terminal_of, at.inode, at.rdwr, at.regular) refl

  answer_rdwt-rdwt_file :
      (dir : Direction)
      → (msg.type == 14) ≡ false
      → rdwt_file s dir desc pin msg.m3i2 buf ≡ ok (n, t, b)
      → answer_rdwt driver s dir buf msg ≡ ok (counted_answer t b msg n)
  unfolding answer_rdwt
  answer_rdwt-rdwt_file dir kind e =
      rw (do_rdwt-rdwt_file dir (λ d dev cnt. (driver d dev cnt).m3i2) e, no_terminal, kind) refl

-- The cases of the `switch`.
answer_fs-writing :
    (driver : Direction → (dev cnt : ℕ) → Message) (s : Fs) (path : List ℕ) (buf : ℕ → ℕ)
    (msg : Message)
    → msg.type ≡ msg_write
    → answer_fs driver s path buf msg ≡ answer_rdwt driver s writing buf msg
unfolding answer_fs
answer_fs-writing driver s path buf msg e =
    let a : (msg.type == msg_open) ≡ false = rw e refl in
    let b : (msg.type == msg_close) ≡ false = rw e refl in
    let c : (msg.type == msg_read) ≡ false = rw e refl in
    let d : (msg.type == msg_write) ≡ true = rw e refl in rw (a, b, c, d) refl

answer_fs-reading :
    (driver : Direction → (dev cnt : ℕ) → Message) (s : Fs) (path : List ℕ) (buf : ℕ → ℕ)
    (msg : Message)
    → msg.type ≡ msg_read
    → answer_fs driver s path buf msg ≡ answer_rdwt driver s reading buf msg
unfolding answer_fs
answer_fs-reading driver s path buf msg e =
    let a : (msg.type == msg_open) ≡ false = rw e refl in
    let b : (msg.type == msg_close) ≡ false = rw e refl in
    let c : (msg.type == msg_read) ≡ true = rw e refl in rw (a, b, c) refl

still-IsOpen :
    (s t : Fs) (p fd desc pin pos size : ℕ)
    → IsOpen s p fd desc pin
    → t.filp ≡ s.filp
    → t.f_desc_table desc ≡ record (s.f_desc_table desc) { fd_pos = pos }
    → t.inode_table pin ≡ record (s.inode_table pin) { i_size = size }
    → IsOpen t p fd desc pin
still-IsOpen s t p fd desc pin pos size at ef ed ei = record {
  filp = ap (λ f. f p fd) ef ∙ at.filp;
  in_table = at.in_table;
  rdwr = ap (λ (d : FileDesc). has_flag d.fd_mode o_rdwr) ed ∙ at.rdwr;
  inode = ap (λ (d : FileDesc). d.fd_inode) ed ∙ at.inode;
  in_inodes = at.in_inodes;
  regular = ap (λ (r : Inode). r.i_mode) ei ∙ at.regular;
}

-- A process has a regular file open on a device with a super block, whose inodes lie in front of the
-- file, and writes to it so that the text ends at the end of the file or behind it, within the
-- sectors of the file and before its 256th sector is full; then it reads with the same descriptor at
-- least up to that end. Both messages are answered SYSCALL_RET, the first with its count, and at the
-- old position of the file the buffer has the text.
pub answer_fs-round_trip :
    (driver : Direction → (dev cnt : ℕ) → Message) (s : Fs) (desc pin : ℕ) (sb : SuperBlock)
    (msg msg' : Message) (path path' : List ℕ) (buf buf' : ℕ → ℕ)
    → msg.type ≡ msg_write
    → msg'.type ≡ msg_read
    → msg'.source ≡ msg.source
    → msg'.m3i1 ≡ msg.m3i1
    → IsOpen s msg.source msg.m3i1 desc pin
    → Fits s desc pin msg.m3i2 sb
    → (s.inode_table pin).i_size ≤ (s.f_desc_table desc).fd_pos + msg.m3i2
    → (s.f_desc_table desc).fd_pos + msg.m3i2 < max_request_sects * sector_size
    → (s.f_desc_table desc).fd_pos + msg.m3i2 ≤ msg'.m3i2
    → (t : Fs) × (b : ℕ → ℕ) × (answer_fs driver s path buf msg
        ≡ ok (counted_answer t b msg msg.m3i2))
      × (n : ℕ) × (u : Fs) × (b' : ℕ → ℕ) × (answer_fs driver t path' buf' msg'
          ≡ ok (counted_answer u b' msg' n))
      × ((k : ℕ) → k < msg.m3i2 → b' ((s.f_desc_table desc).fd_pos + k) ≡ buf k)
answer_fs-round_trip driver s desc pin sb msg msg' path path' buf buf' kind kind' source fd at f
      at_end small room =
    let (t, b, e, w, n, u, b', e', same) =
      rdwt_file-round_trip s desc pin msg.m3i2 buf sb msg'.m3i2 buf' f at_end small room in
    let open' : IsOpen t msg'.source msg'.m3i1 desc pin =
      rw (source, fd)
        (still-IsOpen s t msg.source msg.m3i1 desc pin _ _ at w.filp w.file_desc w.inode) in
    let first : answer_rdwt driver s writing buf msg ≡ ok (counted_answer t b msg msg.m3i2) =
      answer_rdwt-rdwt_file driver s msg desc pin at buf msg.m3i2 t b writing (rw kind refl) e in
    let second : answer_rdwt driver t reading buf' msg' ≡ ok (counted_answer u b' msg' n) =
      answer_rdwt-rdwt_file driver t msg' desc pin open' buf' n u b' reading (rw kind' refl) e' in
    (
      t,
      b,
      answer_fs-writing driver s path buf msg kind ∙ first,
      n,
      u,
      b',
      answer_fs-reading driver t path' buf' msg' kind' ∙ second,
      same,
    )
