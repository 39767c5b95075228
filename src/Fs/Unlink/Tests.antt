-- ===== src/Fs/Unlink/Tests.antt =====
-- The file "a" of the sample device is open while it is unlinked.
use osin32bits.Base.{
  ℕ, ◌≡◌, refl, sym, ◌∙◌, false, none, [], ◌∷◌, ok, arith, ◌==◌, if◌then◌else◌, Bool-cases, true,
  inl, inr,
}
use osin32bits.Fs.Types.{root_dev, i_regular, Fs}
use osin32bits.Fs.Inodes.Table.{holds, IsUnique}
use osin32bits.Fs.Unlink.{do_unlink}
use osin32bits.Fs.Unlink.Busy.{IsRefused, do_unlink-IsRefused}
use osin32bits.Fs.Sample.{block, root, no_inode, start, super_block-start}

abbrev busy : Fs
busy = record start {
  inode_table = λ i.
      if i == 0
      then root
      else (if i == 1
          then record no_inode {
            i_mode = i_regular;
            i_size = 3;
            i_start_sect = 20;
            i_nr_sects = 8;
            i_dev = root_dev;
            i_cnt = 1;
            i_num = 5;
          }
          else no_inode);
}

-- The number of an inode gives its slot.
slot-holds :
    (p dev num : ℕ) → holds (busy.inode_table p) dev num ≡ true → p ≡ (if num == 1 then 0 else 1)
slot-holds p dev num a = elim (Bool-cases (p == 0)) [
  | inl x ↦ let one : (num == 1) ≡ true = ground (arith, rw x at a) in rw one (ground arith)
  | inr x ↦ elim (Bool-cases (p == 1)) [
    | inl y ↦
        let five : (num == 1) ≡ false = ground (arith, rw (x, y) at a) in rw five (ground arith)
    | inr y ↦ absurd (ground (arith, rw (x, y) at a))
  ]
]

busy-IsUnique : IsUnique busy.inode_table
busy-IsUnique p q dev num hp hq a b = slot-holds p dev num a ∙ sym (slot-holds q dev num b)

do_unlink-IsRefused_example :
    (t : Fs) × (do_unlink busy (97 ∷ []) ≡ ok (none, t)) × IsRefused busy 1 t
unfolding osin32bits.Fs.Path.search_file osin32bits.Fs.Path.search_sectors
    osin32bits.Fs.Path.search_sector osin32bits.Fs.Path.strip_path osin32bits.Fs.Path.copy_name
    osin32bits.Text.memcmp osin32bits.Text.strcmp osin32bits.Fs.Sectors.rd_sect
do_unlink-IsRefused_example =
    do_unlink-IsRefused busy (97 ∷ []) (97 ∷ []) 0 root_dev 5 block 1 (omega arith)
      (λ e. absurd (omega (arith, e))) refl (λ e. absurd (omega (arith, e))) refl refl
      (super_block-start busy refl) busy-IsUnique (omega arith) refl
