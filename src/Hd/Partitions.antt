-- ===== src/Hd/Partitions.antt =====
-- kernel/hd.c `partition`: the table of partitions after it.
use osin32bits.Base.{
  ℕ, zero, suc, ◌+◌, ◌-◌, ◌*◌, ◌/◌, ◌%◌, ◌^◌, ◌≤◌, ◌<◌, ◌≡◌, ◌≢◌, refl, ap, ◌∙◌, ◌&&◌, not, map,
  true, false, ok, inl, inr, arith, ◌==◌, ltb, leb, if◌then◌else◌, get_or, AllBelow, Bool-cases,
  ==_refl,
}
use osin32bits.Hd.Types.{
  nr_sub_per_part, nr_prim_per_drive, no_part, ext_part, Drive, Machine, PartEnt, drv_of_dev,
}
use osin32bits.Hd.Partition.{
  part_ent, get_part_table, set_primary, logical_parts, extended_part, primary_part, primary_parts,
  partition,
}
use osin32bits.Hd.Lawful.{idle, IsLawful}
use osin32bits.Hd.Tables.{entry, logical_at, placed, get_part_table-entry, logical_parts-HasLogical}
use osin32bits.Hd.Entries.{
  is_used, primary_at, tables_of, logicals_at, length-tables, one_primary, no_primary,
  logicals_at-ext, logical_entry, plain_entry,
}

drv_of_dev-first : (i : ℕ) → i < 5 → drv_of_dev i ≡ 0
unfolding drv_of_dev
drv_of_dev-first i h = ground arith

extended_part-logical :
    (a : Drive) (m : Machine a) (i base : ℕ)
    → i < 4
    → ((m.hd_info 0).primary (i + 1)).base ≡ base
    → extended_part a m (0 + (i + 1)) ≡ logical_parts a m 0 base (i * 16) 16 0 base
unfolding extended_part
extended_part-logical a m i base h e =
    let drive : drv_of_dev (0 + (i + 1)) ≡ 0 = drv_of_dev-first (0 + (i + 1)) (omega arith) in
    let j : (0 + (i + 1)) % nr_prim_per_drive ≡ i + 1 = omega arith in
    let o : (i + 1 - 1) * nr_sub_per_part ≡ i * 16 = omega arith in rw (drive, j, o, e)

partition-ok :
    (a : Drive) (m t m' : Machine a) (c : ℕ)
    → get_part_table a m 0 0 ≡ ok t
    → primary_parts a t 0 (part_ent t.hdbuf) 4 0 0 ≡ ok (c, m')
    → 0 < c
    → partition a m 0 ≡ ok m'
unfolding partition
partition-ok a m t m' c table run found =
    let zeroth = drv_of_dev-first 0 (omega arith) in
    let counted : not (c == 0) ≡ true = ground arith in rw (zeroth, table, run, counted)

module _ (a : Drive) (l : IsLawful a) (d : ℕ → ℕ) where
  -- The entries from `i` to `k` have been entered into the tables of the first drive.
  pub record HasParts (m : Machine a) (i k : ℕ) (m' : Machine a) : Type 0 where
    pub idle_again : l.phase m'.drive ≡ idle
    pub disk : l.disk m'.drive ≡ d
    pub open_cnt : (m'.hd_info 0).open_cnt ≡ (m.hd_info 0).open_cnt
    pub primary :
        (y : ℕ)
        → (m'.hd_info 0).primary y ≡ (
            if (ltb i y && leb y k) && is_used d (y - 1)
            then primary_at d (y - 1)
            else (m.hd_info 0).primary y)
    pub logical :
        (x : ℕ)
        → (m'.hd_info 0).logical x ≡ (
            if leb i (x / 16) && ltb (x / 16) k
            then get_or (logicals_at d (x / 16)) (x % 16) ((m.hd_info 0).logical x)
            else (m.hd_info 0).logical x)

  -- The tables of logical partitions lie on the drive.
  abbrev pub TablesBelow : (i : ℕ) → Type 0
  TablesBelow i = (entry d 0 i).sys_id ≡ ext_part → AllBelow l.capacity (tables_of d i)

  primary_part-HasParts :
      (m : Machine a) (i : ℕ) (r : PartEnt)
      → i < 4
      → r ≡ entry d 0 i
      → is_used d i ≡ true
      → l.phase m.drive ≡ idle
      → l.disk m.drive ≡ d
      → TablesBelow i
      → l.capacity ≤ 2 ^ 28
      → (m' : Machine a) × (primary_part a m 0 i r ≡ ok m') × HasParts m i (i + 1) m'
  unfolding primary_part primary_at
  primary_part-HasParts m i r h er used e ed below small =
      let p = primary_at d i in
      let u = set_primary a m 0 (i + 1) p in
      let here : ((u.hd_info 0).primary (i + 1)).base ≡ (entry d 0 i).start_sect =
        rw (==_refl (i + 1)) in
      let zeroth = drv_of_dev-first 0 (omega arith) in
      elim (Bool-cases ((entry d 0 i).sys_id == ext_part)) [
        | inl ext ↦
            let (m', run, g) =
              logical_parts-HasLogical a l 16 u (entry d 0 i).start_sect (i * 16) 0
                (entry d 0 i).start_sect d e ed (below (ground arith)) small in
            (
              m',
              rw (er, zeroth, ext, extended_part-logical a u i (entry d 0 i).start_sect h here) run,
              record {
                idle_again = g.idle_again;
                disk = g.disk ∙ ed;
                open_cnt = g.open_cnt;
                primary = λ y.
                    ap (λ f. f y) g.primary
                    ∙ one_primary i y ((m.hd_info 0).primary y) (primary_at d) (is_used d) used;
                logical = λ x.
                    g.logical x
                    ∙ ap
                        (λ o.
                          placed (map (logical_at d) (tables_of d i)) o x ((m.hd_info 0).logical x))
                        (omega arith)
                    ∙ logical_entry d i x ((m.hd_info 0).logical x)
                        (map (logical_at d) (tables_of d i)) (logicals_at-ext d i ext)
                        (length-tables d (entry d 0 i).start_sect 16 (entry d 0 i).start_sect);
              },
            )
        | inr plain ↦ (
          u,
          rw (er, zeroth, plain),
          record {
            idle_again = e;
            disk = ed;
            open_cnt = refl;
            primary =
                λ y. one_primary i y ((m.hd_info 0).primary y) (primary_at d) (is_used d) used;
            logical = λ x. plain_entry d i x ((m.hd_info 0).logical x) plain;
          },
        )
      ]

  HasParts-trans :
      (m u m' : Machine a) (i k k' : ℕ)
      → i ≤ k
      → k ≤ k'
      → HasParts m i k u
      → HasParts u k k' m'
      → HasParts m i k' m'
  HasParts-trans m u m' i k k' h h' g g' = record {
    idle_again = g'.idle_again;
    disk = g'.disk;
    open_cnt = g'.open_cnt ∙ g.open_cnt;
    primary = λ y. ground (arith, g.primary y, g'.primary y);
    logical = λ x. ground (arith, g.logical x, g'.logical x);
  }

  unused-HasParts :
      (m : Machine a) (i : ℕ)
      → is_used d i ≡ false
      → l.phase m.drive ≡ idle
      → l.disk m.drive ≡ d
      → HasParts m i (i + 1) m
  unused-HasParts m i unused e ed =
      let plain : ((entry d 0 i).sys_id == ext_part) ≡ false = unfold is_used in ground arith in
      record {
        idle_again = e;
        disk = ed;
        open_cnt = refl;
        primary = λ y. no_primary i y ((m.hd_info 0).primary y) (primary_at d) (is_used d) unused;
        logical = λ x. plain_entry d i x ((m.hd_info 0).logical x) plain;
      }

  primary_parts-HasParts :
      (n : ℕ) (m : Machine a) (tbl : ℕ → PartEnt) (i c : ℕ)
      → i + n ≤ 4
      → ((j : ℕ) → j < 4 → tbl j ≡ entry d 0 j)
      → ((j : ℕ) → j < 4 → TablesBelow j)
      → l.capacity ≤ 2 ^ 28
      → l.phase m.drive ≡ idle
      → l.disk m.drive ≡ d
      → (m' : Machine a) × (c' : ℕ) × (primary_parts a m 0 tbl n i c ≡ ok (c', m'))
        × (c ≤ c')
        × ((j : ℕ) → i ≤ j → j < i + n → is_used d j ≡ true → c < c')
        × HasParts m i (i + n) m'
  unfolding primary_parts
  primary_parts-HasParts zero m tbl i c h et below small e ed = (
    m,
    c,
    refl,
    omega arith,
    λ j lo hi used. absurd (omega arith),
    record {
      idle_again = e;
      disk = ed;
      open_cnt = refl;
      primary = λ y. ground arith;
      logical = λ x. ground arith;
    },
  )
  primary_parts-HasParts (suc n) m tbl i c h et below small e ed =
      let row = et i (omega arith) in
      elim (Bool-cases ((entry d 0 i).sys_id == no_part)) [
        | inl none ↦
            let free : is_used d i ≡ false = unfold is_used in rw none in
            let (m', c', run, le, lt, g) =
              primary_parts-HasParts n m tbl (i + 1) c (omega arith) et below small e ed in
            (
              m',
              c',
              rw (row, none) run,
              le,
              λ j lo hi used. lt j (later j lo free used) (omega arith) used,
              rw at_end (
                  HasParts-trans m m m' i (i + 1) (i + 1 + n) (omega arith) (omega arith)
                    (unused-HasParts m i free e ed) g),
            )
        | inr some ↦
            let used : is_used d i ≡ true = unfold is_used in rw some in
            let sys : ((tbl i).sys_id == no_part) ≡ false =
              ap (λ (r : PartEnt). r.sys_id == no_part) row ∙ some in
            let (u, one, g) =
              primary_part-HasParts m i (tbl i) (omega arith) row used e ed (below i (omega arith))
                small in
            let (m', c', run, le, lt, g') =
              primary_parts-HasParts n u tbl (i + 1) (c + 1) (omega arith) et below small
                g.idle_again g.disk in
            (
              m',
              c',
              rw (sys, one) run,
              omega arith,
              λ j lo hi us. omega arith,
              rw at_end
                  (HasParts-trans m u m' i (i + 1) (i + 1 + n) (omega arith) (omega arith) g g'),
            )
      ]
    where
      later : (j : ℕ) → i ≤ j → is_used d i ≡ false → is_used d j ≡ true → i + 1 ≤ j
      later j lo free used = let ne : j ≢ i = λ q. cc (ap (is_used d) q) in omega arith

      at_end : i + suc n ≡ i + 1 + n
      at_end = omega arith

  HasParts-same :
      (m t m' : Machine a) (i k : ℕ) → t.hd_info ≡ m.hd_info → HasParts t i k m' → HasParts m i k m'
  HasParts-same m t m' i k info g = record {
    idle_again = g.idle_again;
    disk = g.disk;
    open_cnt = g.open_cnt ∙ ap (λ h. (h 0).open_cnt) info;
    primary = λ y.
        g.primary y
        ∙ ap
            (λ h.
              if (ltb i y && leb y k) && is_used d (y - 1)
              then primary_at d (y - 1)
              else (h 0).primary y)
            info;
    logical = λ x.
        g.logical x
        ∙ ap
            (λ h.
              if leb i (x / 16) && ltb (x / 16) k
              then get_or (logicals_at d (x / 16)) (x % 16) ((h 0).logical x)
              else (h 0).logical x)
            info;
  }

  -- On an idle drive of at most 2 ^ 28 sectors, when some entry of the table in sector 0 is used and
  -- the tables of the extended partitions lie on the drive, `partition` returns: each used entry has
  -- its primary partition, the logical partitions of an extended one stand in its part of the table in
  -- the order of their tables, at most 16 of them, and all other partitions are as before.
  pub partition-HasParts :
      (m : Machine a) (j : ℕ)
      → j < 4
      → is_used d j ≡ true
      → ((i : ℕ) → i < 4 → TablesBelow i)
      → 0 < l.capacity
      → l.capacity ≤ 2 ^ 28
      → l.phase m.drive ≡ idle
      → l.disk m.drive ≡ d
      → (m' : Machine a) × (partition a m 0 ≡ ok m') × HasParts m 0 4 m'
  partition-HasParts m j h used below room small e ed =
      let (t, table, phase, disk, info, ents) = get_part_table-entry a l m 0 d e ed room small in
      let (m', c, run, le, lt, g) =
        primary_parts-HasParts 4 t (part_ent t.hdbuf) 0 0 (omega arith) ents below small phase
          disk in
      (
        m',
        partition-ok a m t m' c table run (lt j (omega arith) (omega arith) used),
        HasParts-same m t m' 0 4 info g,
      )
