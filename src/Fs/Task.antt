-- ===== src/Fs/Task.antt =====
-- fs/main.c: the messages of `task_fs`. A path that a message points to is an argument, and so is the
-- memory behind its buffer; `driver` is the message that the driver of a terminal sends back. An int
-- is its 32-bit pattern.
pub mod Messages
mod Tests
use osin32bits.Base.{
  ℕ, ◌-◌, ◌^◌, Option, none, some, List, Bool, not, ◌||◌, Run, ok, fault, assertion, ◌>>=◌, ◌==◌,
  if◌then◌else◌, has_flag,
}
use osin32bits.Proc.Types.{Message}
use osin32bits.Tty.Task.{syscall_ret}
use osin32bits.Fs.Types.{i_char_special, o_rdwr, Fs}
use osin32bits.Fs.Files.{minor, type_of_mode, do_open, do_close, fs_fork}
use osin32bits.Fs.ReadWrite.{Direction, reading, writing, do_rdwt}
use osin32bits.Fs.Unlink.{do_unlink}

abbrev pub msg_open : ℕ
msg_open = 7

abbrev pub msg_close : ℕ
msg_close = 8

abbrev pub msg_read : ℕ
msg_read = 9

abbrev pub msg_write : ℕ
msg_write = 10

abbrev pub msg_unlink : ℕ
msg_unlink = 13

abbrev pub suspend_proc : ℕ
suspend_proc = 14

abbrev pub resume_proc : ℕ
resume_proc = 15

abbrev pub fork_proc : ℕ
fork_proc = 18

-- What a message leaves behind: the state, the memory behind the buffer, and the process that is
-- answered with its message, if one is.
pub record Answer : Type 0 where
  pub fs : Fs
  pub buf : ℕ → ℕ
  pub reply : Option (ℕ × Message)

-- The end of the loop, for the process `src` and the message as the handler leaves it.
abbrev pub sent_back : Fs → (buf : ℕ → ℕ) → (src : ℕ) → Message → Answer
sent_back s buf src msg = record {
  fs = s;
  buf = buf;
  reply = if msg.type == suspend_proc then none else some (src, record msg { type = syscall_ret });
}

-- A result as an int.
abbrev pub int_of : Option ℕ → ℕ
int_of none = 2 ^ 32 - 1
int_of (some n) = n

-- The terminal that a descriptor is open for.
unfoldable pub terminal_of : Fs → (pcaller fd : ℕ) → Option ℕ
terminal_of s pcaller fd = elim (s.filp pcaller fd) [
  | none ↦ none
  | some desc ↦ elim (s.f_desc_table desc).fd_inode [
    | none ↦ none
    | some pin ↦
        let r = s.inode_table pin in
        if has_flag (s.f_desc_table desc).fd_mode o_rdwr
        then (if type_of_mode r.i_mode == i_char_special then some (minor r.i_start_sect) else none)
        else none
  ]
]

-- `fs_msg` behind `do_rdwt`: a terminal writes it over.
abbrev pub message_after :
    (driver : Direction → (dev cnt : ℕ) → Message) → Direction → Option ℕ → Message → Message
message_after driver dir none msg = msg
message_after driver dir (some dev) msg = driver dir dev msg.m3i2

-- The cases READ and WRITE.
unfoldable pub answer_rdwt :
    (driver : Direction → (dev cnt : ℕ) → Message)
    → Fs
    → Direction
    → (buf : ℕ → ℕ) → Message
    → Run Answer
answer_rdwt driver s dir buf msg = do
  (n, t, b) ← do_rdwt (λ d dev cnt. (driver d dev cnt).m3i2) s dir msg.source msg.m3i1 msg.m3i2 buf
  let m = message_after driver dir (terminal_of s msg.source msg.m3i1) msg
  ok (sent_back t b msg.source (record m { m3i2 = int_of n }))

-- The `switch` of `task_fs`.
unfoldable pub answer_fs :
    (driver : Direction → (dev cnt : ℕ) → Message)
    → Fs
    → (path : List ℕ) → (buf : ℕ → ℕ) → Message
    → Run Answer
answer_fs driver s path buf msg =
    let src = msg.source in
    if msg.type == msg_open
    then (do
      (fd, t) ← do_open s src msg.m3i1 path
      ok (sent_back t buf src (record msg { m3i1 = int_of fd })))
    else (if msg.type == msg_close
        then (do t ← do_close s src msg.m3i1; ok (sent_back t buf src (record msg { m3i1 = 0 })))
        else (if msg.type == msg_read
            then answer_rdwt driver s reading buf msg
            else (if msg.type == msg_write
                then answer_rdwt driver s writing buf msg
                else (if msg.type == msg_unlink
                    then (do
                      (r, t) ← do_unlink s path
                      ok (sent_back t buf src (record msg { m3i1 = int_of r })))
                    else (if msg.type == resume_proc
                        then ok (sent_back s buf msg.m3i3 msg)
                        else (if msg.type == fork_proc
                            then (do
                              t ← fs_fork s msg.m3i2
                              ok (sent_back t buf src (record msg { m3i1 = 0 })))
                            else fault assertion))))))
