-- ===== src/Lib.antt =====
-- OSin32bits, a teaching kernel for the 80386: tasks and user processes that talk by messages.
--
-- Parts of the program and the files that model them (paths from the repository's root):
--   Base: Boolean tests and flags of C ints, lists and tables over the native numbers, and `Run`, the
--     outcome of kernel code (a failed assert, a panic, or a loop that does not end, is a fault).
--   Protect: kernel/protect.c, segment descriptors (`init_desc`, `seg2linear`).
--   Proc: kernel/proc.c and kernel/clock.c, processes.
--     Types: the process table by columns (include/proc.h), the messages, `va2la`.
--     Schedule, Schedule/Choice: `schedule`, what it chooses and when it ends.
--     Ipc: `sys_sendrec`, `msg_send`, `msg_receive`, `deadlock`, `inform_int`, with every assertion.
--     Chain, Waits, Queues, Dequeue: the sending queues as linked lists, and the chains of waiting
--       processes.
--     Inv, Blocking: the invariant of message passing.
--     Enqueue, Send, Taking, Receive: the branches of `msg_send` and `msg_receive`.
--     Boot: the table that kernel/main.c `kernel_main` builds. Interrupt, Tick: interrupts.
--     System, Syscall, Forking, Reach: the kernel as a step relation. Sample is a table for the tests.
--   Mm: mm/main.c and mm/forkexit.c: Alloc `alloc_mem`, Fork `do_fork` up to its messages.
--   Text: lib/misc.c, memory and strings; Format: lib/vsprintf.c, Digits what `i2a` prints.
--   Fs: fs/, the file system of the root device.
--     Types: inodes, super blocks, descriptors and the state of the task. Sectors: the disk.
--     Inodes: `get_inode`, `put_inode`, `sync_inode`; Table no inode stands in two slots, Stored and
--       Sync what is written is read.
--     Path: `strip_path` (Names) and `search_file` (Entries, Search).
--     Bitmap: `alloc_imap_bit` (Imap) and `alloc_smap_bit`.
--     Create: `creat_file`; Free the place of a new entry, Buffer and Entry what is written, Found
--       the search for it.
--     Files: `do_open` (Taking, Opened), `do_close`, `do_lseek` (Seek) and `fs_fork` (Share).
--     Unlink: `do_unlink`; Busy a file in use.
--     Mkfs: `mkfs` and `init_fs`; Words and Fields the fields of structs, Fresh what `mkfs` leaves on
--       the disk, Mounted the root.
--     ReadWrite: `do_rdwt`; Span the reads, Write, RoundTrip, Ends. Sample is a device for the tests.
--     Task: the `switch` of `task_fs`; Messages what a process sees of a write and a read.
--   Hd: kernel/hd.c, the driver of the hard disk. Types: its tables, and the drive as a parameter.
--     Ports: commands and waits. Transfer: `hd_rdwt`. Partition: the partition tables, the other
--       requests and `handle`, the body of the loop of `task_hd`.
--     Lawful: what is relied on of the drive; Sample is such a drive. Commands: waits and commands.
--     Reads, Writes, Stuck, Requests: what `hd_rdwt` does. Tables, Entries, Partitions: `partition`.
--     Disk: the driver does what Fs takes it to do.
--   Ring: the ring buffers of keyboard and terminal, and the bounded queues that they stand for.
--   Console: kernel/console.c, characters, wrapping and scrolling: Scroll the loop that follows the
--     cursor, Steps and Output `out_char`, Moves `scroll_screen` and the consoles at the start.
--   Keyboard: kernel/keyboard.c with include/keymap.h, from scan codes to keys.
--   Tty: kernel/tty.c, the line discipline; Line is the reference editor with its echo, Trace the keys
--     without a console, Keys what one key does, Runs what a row of keys does, Echo the console, Write
--     the refinement. Task: `tty_do_write` (Output), `in_process`
--     (Handle) and the `switch` of `task_tty` for one message and its terminal.
--   Sys: kernel/systask.c, the switch of `task_sys`; Clock the time that it answers.
--
-- State. `proc_table[i].field` is `(s.ipc i).field`, `(s.sched i).field` or `s.ldt_rw i`; a pointer
-- into the table is an index. Messages in memory are whole: two of them are never laid over each
-- other in part. A process that is interrupted between two system calls is a `Step` of its own.
--
-- Interrupts. kernel/kernel.asm enables interrupts within system calls and handlers. Here each of them
-- runs to its end before the next one starts: what a handler changes in the midst of `msg_send`,
-- `msg_receive` or `schedule` is not modelled.
--
-- Fuel. Two rounds of `schedule` are enough while some process can run (Schedule/Choice). The loops
-- over queues and chains have one round more than the table has slots, which the invariant makes
-- enough: a chain has distinct members.
--
-- `tty_dev_write` has one round more than the ring holds keys, and each round takes one.
-- The loop of `tty_do_write` has one round more than the text has characters.
-- The loop of `out_char` needs less than two rounds for each row of the console.
-- The loop of `do_rdwt` has as many rounds as sectors, and each round goes on by one sector or more.
-- When a request of it would never end, since it has more than 256 sectors, it is out of fuel.
--
-- The loop of `hd_rdwt` needs one round more than the request has sectors.
--
-- The disk. Fs takes a message to the driver of the disk to be done when its reply comes: sectors are
-- read into the buffer of the file system or written from it. Hd/Disk proves this of the driver for
-- requests of at most 256 sectors, on a drive that behaves as ATA documents it (Hd/Lawful).
--
-- Not modelled: port I/O and the assembly code, the drawing of error messages, the register images
-- of processes, the user programs, the wrappers of the system calls under lib/, what the disk driver
-- prints, `sys_printx`, and the loops of fs/ and `task_tty` around the requests.
pub mod Base
pub mod Protect
pub mod Console
pub mod Keyboard
pub mod Ring
pub mod Tty
pub mod Proc
pub mod Mm
pub mod Text
pub mod Fs
pub mod Hd
pub mod Sys
