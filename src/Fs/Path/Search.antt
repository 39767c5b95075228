-- ===== src/Fs/Path/Search.antt =====
-- fs/misc.c `search_file`: which entries of the directory it looks at.
use osin32bits.Base.{
  ℕ, zero, suc, ◌+◌, ◌-◌, ◌*◌, ◌/◌, ◌%◌, ◌≤◌, ◌<◌, ◌≡◌, refl, ap, sym, ◌∙◌, ◌≢◌, inl, inr, Option,
  none, some, List, true, false, arith, ◌==◌, ltb, if◌then◌else◌, Bool-cases, Option-cases,
}
use osin32bits.Fs.Types.{sector_size, dir_entry_size, Fs}
use osin32bits.Fs.Sectors.{
  rd_sect, rd_sect-bytes, SameButBuffer, SameButBuffer-trans, rd_sect-SameButBuffer, disk-rd_sect,
}
use osin32bits.Fs.Path.{
  buffer_of, strip_path, Scan, returned, counted, search_sector, search_sectors, search_file,
}
use osin32bits.Text.{char_at}
use osin32bits.Fs.Path.Entries.{
  first_entry, answer, IsLeast, first_entry-append, search_sector-first,
}

-- The outer loop is the search for the first entry, in all the sectors.
search_sectors-first :
    (s : Fs) (name d : ℕ → ℕ) (dev nr blk0 i n m c : ℕ)
    → s.disk dev ≡ d
    → m ≡ 32 * i
    → m ≤ nr
    → IsLeast c (32 * n) (nr + 1 - m)
    → (search_sectors s name dev nr n (blk0 + i) m).0 ≡ answer d blk0 (first_entry d name blk0 c m)
unfolding search_sectors
search_sectors-first s name d dev nr blk0 i zero m c ed em le l =
    let nothing : c ≡ 0 = ground (arith, l) in rw nothing refl
search_sectors-first s name d dev nr blk0 i (suc n) m c ed em le l =
    let t = rd_sect s dev (blk0 + i) in
    let same : (k : ℕ) → k < sector_size → t.fsbuf k ≡ d ((blk0 + i) * sector_size + k) =
      λ k u. rd_sect-bytes s dev (blk0 + i) k u ∙ ap (λ f. f ((blk0 + i) * sector_size + k)) ed in
    let sector = λ (c1 : ℕ) (l1 : IsLeast c1 32 (nr + 1 - m)).
      search_sector-first t.fsbuf d (blk0 + i) same name blk0 nr i 32 0 m c1 refl (omega arith)
        (omega arith) le l1 in
    let after : Scan → ℕ × Fs = λ w. elim w [
      | returned x ↦ (x, t)
      | counted m' ↦
          let next = search_sectors t name dev nr n (blk0 + i + 1) m' in
          if ltb nr m' then (0, t) else next
    ] in
    let found : Option ℕ → ℕ → Scan =
      λ o x. elim o [ none ↦ counted x | some e ↦ returned (answer d blk0 (some e)) ] in
    elim (Bool-cases (ltb (nr + 1 - m) 32)) [
      | inl short ↦
          let here = sector c (ground (arith, l)) in
          elim (Option-cases (first_entry d name blk0 c m)) [
            | inl e ↦
                let end : ltb nr (m + c) ≡ true = ground (arith, l) in
                ap (λ w. (after w).0) (here ∙ ap (λ o. found o (m + c)) e)
                ∙ ap
                    (λ b.
                      (if b
                        then (0, t)
                        else search_sectors t name dev nr n (blk0 + i + 1) (m + c)).0)
                    end
                ∙ ap (answer d blk0) (sym e)
            | inr (x, e) ↦
                ap (λ w. (after w).0) (here ∙ ap (λ o. found o (m + c)) e)
                ∙ ap (answer d blk0) (sym e)
          ]
      | inr long ↦
          let here = sector 32 (ground arith) in
          let sum : c ≡ 32 + (c - 32) = ground (arith, l) in
          let split =
            ap (λ x. first_entry d name blk0 x m) sum
            ∙ first_entry-append d name blk0 32 (c - 32) m in
          let rest : Option ℕ → Option ℕ =
            λ o. elim o [ none ↦ first_entry d name blk0 (c - 32) (m + 32) | some x ↦ some x ] in
          elim (Option-cases (first_entry d name blk0 32 m)) [
            | inl e ↦
                ap (λ w. (after w).0) (here ∙ ap (λ o. found o (m + 32)) e)
                ∙ elim (Bool-cases (ltb nr (m + 32))) [
                  | inl last ↦
                      let end : c - 32 ≡ 0 = ground (arith, l) in
                      ap
                        (λ b.
                          (if b
                            then (0, t)
                            else search_sectors t name dev nr n (blk0 + i + 1) (m + 32)).0)
                        last
                      ∙ ap (λ k. answer d blk0 (first_entry d name blk0 k (m + 32))) (sym end)
                  | inr on ↦
                      ap
                        (λ b.
                          (if b
                            then (0, t)
                            else search_sectors t name dev nr n (blk0 + i + 1) (m + 32)).0)
                        on
                      ∙ ap (λ k. (search_sectors t name dev nr n k (m + 32)).0) (omega arith)
                      ∙ search_sectors-first t name d dev nr blk0 (i + 1) n (m + 32) (c - 32)
                          (ap (λ f. f dev) (disk-rd_sect s dev (blk0 + i)) ∙ ed) (omega arith)
                          (ground arith) (ground (arith, l))
                ]
                ∙ ap (answer d blk0) (sym (split ∙ ap rest e))
            | inr (x, e) ↦
                ap (λ w. (after w).0) (here ∙ ap (λ o. found o (m + 32)) e)
                ∙ ap (answer d blk0) (sym (split ∙ ap rest e))
          ]
    ]

-- The entries of a directory of the size, and one more if the last sector has room.
abbrev pub entries_seen : (size : ℕ) → ℕ
entries_seen size = size / dir_entry_size + (if size % sector_size == 0 then 0 else 1)

-- What `search_file` does with what `strip_path` returns.
abbrev search_stripped : Fs → Option (List ℕ × ℕ) → ℕ × Fs
search_stripped s none = (0, s)
search_stripped s (some (filename, p)) =
    let dir = s.inode_table p in
    if char_at filename == 0
    then (dir.i_num, s)
    else search_sectors s (buffer_of filename) dir.i_dev (dir.i_size / dir_entry_size)
        ((dir.i_size + sector_size - 1) / sector_size) dir.i_start_sect 0

-- Of a name that is a file's, `search_file` returns the number of the first entry with the name among
-- those of the directory and, unless the directory fills its last sector, one entry behind them; 0
-- if there is none.
pub search_file-first :
    (s : Fs) (path filename : List ℕ) (p : ℕ)
    → strip_path s (some path) ≡ some (filename, p)
    → char_at filename ≢ 0
    → (search_file s path).0
      ≡ answer (s.disk (s.inode_table p).i_dev) (s.inode_table p).i_start_sect (
          first_entry
            (s.disk (s.inode_table p).i_dev)
            (buffer_of filename)
            (s.inode_table p).i_start_sect
            (entries_seen (s.inode_table p).i_size)
            0)
unfolding search_file
search_file-first s path filename p e ne =
    let dir = s.inode_table p in
    let named : (char_at filename == 0) ≡ false = ground arith in
    let nr = dir.i_size / dir_entry_size in
    let blks = (dir.i_size + sector_size - 1) / sector_size in
    ap (λ o. (search_stripped s o).0) e
    ∙ ap
        (λ b.
          (if b
            then (dir.i_num, s)
            else search_sectors s (buffer_of filename) dir.i_dev nr blks dir.i_start_sect 0).0)
        named
    ∙ ap (λ x. (search_sectors s (buffer_of filename) dir.i_dev nr blks x 0).0) (omega arith)
    ∙ search_sectors-first s (buffer_of filename) (s.disk dir.i_dev) dir.i_dev nr dir.i_start_sect 0
        blks 0 (entries_seen dir.i_size) refl (omega arith) (omega arith) (ground arith)

search_sectors-SameButBuffer :
    (s : Fs) (name : ℕ → ℕ) (dev nr n blk m : ℕ)
    → SameButBuffer s (search_sectors s name dev nr n blk m).1
unfolding search_sectors
search_sectors-SameButBuffer s name dev nr zero blk m = refl
search_sectors-SameButBuffer s name dev nr (suc n) blk m =
    let t = rd_sect s dev blk in
    let read = rd_sect-SameButBuffer s dev blk in
    let after : Scan → ℕ × Fs = λ w. elim w [
      | returned x ↦ (x, t)
      | counted m' ↦
          let next = search_sectors t name dev nr n (blk + 1) m' in
          if ltb nr m' then (0, t) else next
    ] in
    elim (search_sector t.fsbuf name nr 32 0 m) as (λ w. SameButBuffer s (after w).1) [
      | returned x ↦ read
      | counted m' ↦
          elim (ltb nr m')
            as (λ b.
              SameButBuffer s
                (if b then (0, t) else search_sectors t name dev nr n (blk + 1) m').1) [
                  | true ↦ read
                  | false ↦
                      SameButBuffer-trans s t _ read
                        (search_sectors-SameButBuffer t name dev nr n (blk + 1) m')
                ]
    ]

-- A search changes nothing but the buffer.
pub search_file-SameButBuffer : (s : Fs) (path : List ℕ) → SameButBuffer s (search_file s path).1
unfolding search_file
search_file-SameButBuffer s path =
    elim (strip_path s (some path)) as (λ o. SameButBuffer s (search_stripped s o).1) [
      | none ↦ refl
      | some (filename, p) ↦
          elim (char_at filename == 0)
            as (λ b.
              SameButBuffer s
                (if b
                  then ((s.inode_table p).i_num, s)
                  else search_sectors s (buffer_of filename) (s.inode_table p).i_dev
                      ((s.inode_table p).i_size / dir_entry_size)
                      (((s.inode_table p).i_size + sector_size - 1) / sector_size)
                      (s.inode_table p).i_start_sect 0).1) [
                        | true ↦ refl
                        | false ↦
                            search_sectors-SameButBuffer s (buffer_of filename)
                              (s.inode_table p).i_dev _ _ _ 0
                      ]
    ]
