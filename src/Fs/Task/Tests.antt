-- ===== src/Fs/Task/Tests.antt =====
-- The process 7 writes to the file "a", which it has open as the descriptor 0, and reads it.
use osin32bits.Base.{ℕ, ◌+◌, ◌<◌, ◌≡◌, refl, none, some, [], ok, arith, ◌==◌, if◌then◌else◌}
use osin32bits.Proc.Types.{Message, reset_msg}
use osin32bits.Fs.Types.{root_dev, i_regular, Fs}
use osin32bits.Fs.ReadWrite.Write.{Fits}
use osin32bits.Fs.Task.{msg_read, msg_write, answer_fs}
use osin32bits.Fs.Task.Messages.{IsOpen, counted_answer, answer_fs-round_trip}
use osin32bits.Fs.Sample.{block, no_desc, no_inode, start, super_block-start}

abbrev view : Fs
view = record start {
  inode_table = λ i.
      if i == 1
      then record no_inode {
        i_mode = i_regular;
        i_size = 3;
        i_start_sect = 20;
        i_nr_sects = 8;
        i_dev = root_dev;
        i_cnt = 1;
        i_num = 5;
      }
      else no_inode;
  f_desc_table = λ i.
      if i == 0 then record no_desc { fd_mode = 2; fd_pos = 3; fd_inode = some 1 } else no_desc;
  filp = λ p fd. if p == 7 then (if fd == 0 then some 0 else none) else none;
}

view-IsOpen : IsOpen view 7 0 0 1
view-IsOpen = record {
  filp = refl;
  in_table = omega arith;
  rdwr = refl;
  inode = refl;
  in_inodes = omega arith;
  regular = refl;
}

view-Fits : Fits view 0 1 600 block
view-Fits = record {
  has_sb = super_block-start view refl;
  ends = omega arith;
  span = omega arith;
  behind = omega arith;
}

abbrev letters : ℕ → ℕ
letters i = 65 + i

abbrev blank : ℕ → ℕ
blank i = 0

abbrev write_request : Message
write_request = record reset_msg { source = 7; type = msg_write; m3i1 = 0; m3i2 = 600 }

abbrev read_request : Message
read_request = record reset_msg { source = 7; type = msg_read; m3i1 = 0; m3i2 = 700 }

answer_fs-round_trip_example :
    (t : Fs) × (b : ℕ → ℕ) × (answer_fs (λ d dev cnt. reset_msg) view [] letters write_request
      ≡ ok (counted_answer t b write_request 600))
    × (n : ℕ) × (u : Fs) × (b' : ℕ → ℕ) × (answer_fs
          (λ d dev cnt. reset_msg)
          t
          []
          blank
          read_request
        ≡ ok (counted_answer u b' read_request n))
    × ((k : ℕ) → k < 600 → b' (3 + k) ≡ letters k)
answer_fs-round_trip_example =
    answer_fs-round_trip (λ d dev cnt. reset_msg) view 0 1 block write_request read_request [] []
      letters blank refl refl refl refl view-IsOpen view-Fits (omega arith) (omega arith)
      (omega arith)
