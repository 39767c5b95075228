-- ===== src/Fs/Mkfs/Tests.antt =====
-- A device of zeros with 100000 sectors.
use osin32bits.Base.{◌≡◌, ok, arith}
use osin32bits.Fs.Types.{Fs}
use osin32bits.Fs.Mkfs.{init_fs}
use osin32bits.Fs.Mkfs.Mounted.{HasRoot, init_fs-HasRoot}
use osin32bits.Fs.Sample.{start}

abbrev blank : Fs
blank = record start { disk = λ d p. 0 }

init_fs-HasRoot_example : (u : Fs) × (init_fs blank 100000 ≡ ok u) × HasRoot 100000 u
unfolding osin32bits.Fs.Sectors.rd_sect
init_fs-HasRoot_example =
    init_fs-HasRoot blank 100000 (omega arith) (λ e. absurd (omega (arith, e)))
