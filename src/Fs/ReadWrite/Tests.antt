-- ===== src/Fs/ReadWrite/Tests.antt =====
-- A file of the sample device is read and written.
use osin32bits.Base.{ℕ, ◌+◌, ◌≡◌, refl, some, ok, arith, ◌==◌, if◌then◌else◌}
use osin32bits.Fs.Types.{root_dev, i_regular, Fs}
use osin32bits.Fs.ReadWrite.{reading, writing, rdwt_file}
use osin32bits.Fs.ReadWrite.Ends.{Ended, rdwt_file-Ended}
use osin32bits.Fs.ReadWrite.Span.{HasRead, rdwt_file-HasRead}
use osin32bits.Fs.ReadWrite.Write.{Fits, HasWritten, rdwt_file-HasWritten}
use osin32bits.Fs.Sample.{block, no_desc, no_inode, start, super_block-start}

-- The file "a" in the slot 1, open at its end.
abbrev open_file : Fs
open_file = record start {
  inode_table = λ i.
      if i == 1
      then record no_inode {
        i_mode = i_regular;
        i_size = 3;
        i_start_sect = 20;
        i_nr_sects = 8;
        i_dev = root_dev;
        i_cnt = 1;
        i_num = 5;
      }
      else no_inode;
  f_desc_table = λ i.
      if i == 0 then record no_desc { fd_mode = 2; fd_pos = 3; fd_inode = some 1 } else no_desc;
}

abbrev text : ℕ → ℕ
text i = 65 + i

fits : Fits open_file 0 1 600 block
fits = record {
  has_sb = super_block-start open_file refl;
  ends = omega arith;
  span = omega arith;
  behind = omega arith;
}

rdwt_file-Ended_example : Ended open_file writing 0 1 600 (rdwt_file open_file writing 0 1 600 text)
rdwt_file-Ended_example =
    rdwt_file-Ended open_file writing 0 1 600 text block (super_block-start open_file refl)

rdwt_file-HasRead_example :
    (n : ℕ) × (t : Fs) × (b : ℕ → ℕ) × (rdwt_file open_file reading 0 1 100 text ≡ ok (n, t, b))
    × HasRead open_file 0 1 100 text n t b
rdwt_file-HasRead_example =
    rdwt_file-HasRead open_file 0 1 100 text block (super_block-start open_file refl) (omega arith)
      (omega arith)

rdwt_file-HasWritten_example :
    (t : Fs) × (b : ℕ → ℕ) × (rdwt_file open_file writing 0 1 600 text ≡ ok (600, t, b))
    × HasWritten open_file 0 1 600 text block t
rdwt_file-HasWritten_example = rdwt_file-HasWritten open_file 0 1 600 text block fits
