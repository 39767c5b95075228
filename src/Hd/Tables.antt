-- ===== src/Hd/Tables.antt =====
-- kernel/hd.c: what `get_part_table` reads, and the logical partitions of an extended partition.
use osin32bits.Base.{
  ℕ, zero, suc, ◌+◌, ◌-◌, ◌*◌, ◌%◌, ◌^◌, ◌≤◌, ◌<◌, ◌≡◌, refl, ap, sym, ◌∙◌, List, [], ◌∷◌, map,
  true, false, ok, inl, inr, arith, ◌==◌, leb, if◌then◌else◌, get_or, AllBelow, Bool-cases,
}
use osin32bits.Fs.Sectors.{get32-cong}
use osin32bits.Hd.Types.{
  sector_size, no_part, partition_table_offset, ata_read, reg_cmd, Drive, Machine, PartEnt,
  PartInfo,
}
use osin32bits.Hd.Ports.{lba_cmd, set_up}
use osin32bits.Hd.Partition.{part_ent, fetch, get_part_table, set_logical, logical_parts}
use osin32bits.Hd.Lawful.{idle, IsLawful}
use osin32bits.Hd.Commands.{begin_read, disk-begin, hd_cmd_out-ok, interrupt_wait-some}

-- Entry `i` of the table in sector `sect`.
abbrev pub entry : (d : ℕ → ℕ) → (sect i : ℕ) → PartEnt
entry d sect i = part_ent (λ j. d (sect * sector_size + j)) i

-- The first `n` sectors with tables of logical partitions, from `s` on.
unfoldable pub tables : (d : ℕ → ℕ) → (ext_start_sect n s : ℕ) → List ℕ
tables d ext zero s = []
tables d ext (suc n) s =
    let more = tables d ext n ((ext + (entry d s 1).start_sect) % 2 ^ 32) in
    s ∷ (if (entry d s 1).sys_id == no_part then [] else more)

-- The logical partition that the table in sector `s` describes.
abbrev pub logical_at : (d : ℕ → ℕ) → (s : ℕ) → PartInfo
logical_at d s = record {
  base = (s + (entry d s 0).start_sect) % 2 ^ 32;
  size = (entry d s 0).nr_sects;
}

-- The entry `x` of a table, after `ps` has been written from `o` on.
abbrev pub placed {ℓ} : {A : Type ℓ} → List A → (o x : ℕ) → (old : A) → A
placed ps o x old = if leb o x then get_or ps (x - o) old else old

placed-cons {ℓ} :
    {A : Type ℓ} (p : A) (ps : List A) (o x : ℕ) (old : A)
    → placed (p ∷ ps) o x old ≡ placed ps (o + 1) x (if x == o then p else old)
placed-cons p ps o x old = elim (Bool-cases (leb (o + 1) x)) [
  | inl later ↦
      let here : leb o x ≡ true = ground arith in
      let other : (x == o) ≡ false = ground arith in
      let next : x - o ≡ suc (x - (o + 1)) = ground arith in rw (here, next, later, other)
  | inr sooner ↦ elim (Bool-cases (x == o)) [
    | inl e ↦
        let here : leb o x ≡ true = ground arith in
        let first : x - o ≡ 0 = ground arith in rw (here, first, sooner, e)
    | inr other ↦ let here : leb o x ≡ false = ground arith in rw (here, sooner, other)
  ]
]

pub placed-nil {ℓ} : {A : Type ℓ} (o x : ℕ) (old : A) → placed [] o x old ≡ old
placed-nil o x old = ground arith

module _ (a : Drive) (l : IsLawful a) where
  pub get_part_table-entry :
      (m : Machine a) (sect : ℕ) (d : ℕ → ℕ)
      → l.phase m.drive ≡ idle
      → l.disk m.drive ≡ d
      → sect < l.capacity
      → l.capacity ≤ 2 ^ 28
      → (m' : Machine a) × (get_part_table a m 0 sect ≡ ok m')
        × (l.phase m'.drive ≡ idle)
        × (l.disk m'.drive ≡ d)
        × (m'.hd_info ≡ m.hd_info)
        × ((i : ℕ) → i < 4 → part_ent m'.hdbuf i ≡ entry d sect i)
  unfolding get_part_table
  get_part_table-entry m sect d e ed room small =
      let s = a.out_byte (set_up a m.drive (lba_cmd 0 sect 1 ata_read)) reg_cmd ata_read in
      let (t, comes, phase, disk) =
        l.fetched s sect 0 (begin_read a l m.drive e sect 1 (omega arith) (omega arith)) in
      let (next, same, bytes) = l.given t sect 0 phase in
      let old : l.disk t ≡ d = disk ∙ disk-begin a l m.drive e sect 1 ata_read ∙ ed in
      let m' = fetch a m t in
      let here : (j : ℕ) → j < sector_size → m'.hdbuf j ≡ d (sect * sector_size + j) =
        λ j h. ground (arith, bytes j, ap (λ f. f (sect * sector_size + j)) old) in
      (
        m',
        rw (
          hd_cmd_out-ok a l m.drive (lba_cmd 0 sect 1 ata_read) e,
          interrupt_wait-some a s t comes,
        ),
        next,
        same ∙ old,
        refl,
        λ i h. λ k. record {
          sys_id = here (partition_table_offset + 16 * i + 4) (omega arith) k;
          start_sect =
              get32-cong m'.hdbuf (λ j. d (sect * sector_size + j))
                (partition_table_offset + 16 * i + 8) (λ j lo hi. here j (omega arith)) k;
          nr_sects =
              get32-cong m'.hdbuf (λ j. d (sect * sector_size + j))
                (partition_table_offset + 16 * i + 12) (λ j lo hi. here j (omega arith)) k;
        },
      )

  -- The partitions `ps` stand in the places of the table from `o` on; all else is as before.
  pub record HasLogical (m : Machine a) (o : ℕ) (ps : List PartInfo) (m' : Machine a) : Type 0 where
    pub idle_again : l.phase m'.drive ≡ idle
    pub disk : l.disk m'.drive ≡ l.disk m.drive
    pub open_cnt : (m'.hd_info 0).open_cnt ≡ (m.hd_info 0).open_cnt
    pub primary : (m'.hd_info 0).primary ≡ (m.hd_info 0).primary
    pub logical : (x : ℕ) → (m'.hd_info 0).logical x ≡ placed ps o x ((m.hd_info 0).logical x)

  pub logical_parts-HasLogical :
      (n : ℕ) (m : Machine a) (ext nr i s : ℕ) (d : ℕ → ℕ)
      → l.phase m.drive ≡ idle
      → l.disk m.drive ≡ d
      → AllBelow l.capacity (tables d ext n s)
      → l.capacity ≤ 2 ^ 28
      → (m' : Machine a) × (logical_parts a m 0 ext nr n i s ≡ ok m')
        × HasLogical m (nr + i) (map (logical_at d) (tables d ext n s)) m'
  unfolding logical_parts tables
  logical_parts-HasLogical zero m ext nr i s d e ed below small = (
    m,
    refl,
    record {
      idle_again = e;
      disk = refl;
      open_cnt = refl;
      primary = refl;
      logical = λ x. ground arith;
    },
  )
  logical_parts-HasLogical (suc n) m ext nr i s d e ed below small =
      let (t, run, phase, disk, info, ents) = get_part_table-entry m s d e ed (below.0) small in
      let u = set_logical a t 0 (nr + i) (logical_at d s) in
      let start0 = ap (λ (r : PartEnt). r.start_sect) (ents 0 (omega arith)) in
      let nr0 = ap (λ (r : PartEnt). r.nr_sects) (ents 0 (omega arith)) in
      let sys1 = ap (λ (r : PartEnt). r.sys_id) (ents 1 (omega arith)) in
      let start1 = ap (λ (r : PartEnt). r.start_sect) (ents 1 (omega arith)) in
      elim (Bool-cases ((entry d s 1).sys_id == no_part)) [
        | inl last ↦ rw last (
          u,
          rw (run, start0, nr0, sys1, last),
          record {
            idle_again = phase;
            disk = disk ∙ sym ed;
            open_cnt = ap (λ h. (h 0).open_cnt) info;
            primary = ap (λ h. (h 0).primary) info;
            logical = λ x.
                ap (λ h. if x == nr + i then logical_at d s else (h 0).logical x) info
                ∙ sym (
                    placed-cons (logical_at d s) [] (nr + i) x ((m.hd_info 0).logical x)
                    ∙ placed-nil (nr + i + 1) x _);
          },
        )
        | inr more ↦
            let next = (ext + (entry d s 1).start_sect) % 2 ^ 32 in
            let (m', rest, g) =
              logical_parts-HasLogical n u ext nr (i + 1) next d phase disk ((rw more at below).1)
                small in
            rw more (
              m',
              rw (run, start0, nr0, sys1, start1, more) rest,
              record {
                idle_again = g.idle_again;
                disk = g.disk ∙ disk ∙ sym ed;
                open_cnt = g.open_cnt ∙ ap (λ h. (h 0).open_cnt) info;
                primary = g.primary ∙ ap (λ h. (h 0).primary) info;
                logical = λ x.
                    g.logical x
                    ∙ ap
                        (λ h.
                          placed (map (logical_at d) (tables d ext n next)) (nr + (i + 1)) x
                            (if x == nr + i then logical_at d s else (h 0).logical x))
                        info
                    ∙ ap
                        (λ o.
                          placed (map (logical_at d) (tables d ext n next)) o x
                            (if x == nr + i then logical_at d s else (m.hd_info 0).logical x))
                        (omega arith)
                    ∙ sym (
                        placed-cons (logical_at d s) (map (logical_at d) (tables d ext n next))
                          (nr + i) x ((m.hd_info 0).logical x));
              },
            )
      ]
