-- ===== src/Fs/Path/Entries.antt =====
-- fs/misc.c `search_file`: the entries of a directory, and the search in one sector.
use osin32bits.Base.{
  ℕ, zero, suc, ◌+◌, ◌-◌, ◌*◌, ◌/◌, ◌%◌, ◌≤◌, ◌<◌, ◌≡◌, refl, ap, sym, ◌∙◌, ◌⊎◌, inl, inr, Option,
  none, some, Bool, arith, ◌==◌, ltb, if◌then◌else◌, Bool-cases,
}
use osin32bits.Text.{memcmp, memcmp-cong}
use osin32bits.Fs.Types.{sector_size, dir_entry_size, max_filename_len}
use osin32bits.Fs.Path.{entry_inode_nr, entry_name, returned, counted, search_sector}

-- The place on the device of the entry `e` of the directory that starts at the sector `blk`.
abbrev pub entry_place : (blk e : ℕ) → ℕ
entry_place blk e = (blk + e / 32) * sector_size + e % 32 * dir_entry_size

abbrev pub is_named : (d name : ℕ → ℕ) → (o : ℕ) → Bool
is_named d name o = memcmp name (entry_name d o) max_filename_len 0 == 0

-- The first of the `n` entries from `e` on with the name.
abbrev pub first_entry : (d name : ℕ → ℕ) → (blk n e : ℕ) → Option ℕ
first_entry d name blk zero e = none
first_entry d name blk (suc n) e =
    if is_named d name (entry_place blk e) then some e else first_entry d name blk n (e + 1)

-- The number of its inode.
abbrev pub answer : (ℕ → ℕ) → (blk : ℕ) → Option ℕ → ℕ
answer d blk none = 0
answer d blk (some e) = entry_inode_nr d (entry_place blk e)

-- `c` is the smaller one of `n` and `room`.
abbrev pub IsLeast : (c n room : ℕ) → Type 0
IsLeast c n room = (c ≤ n) × (c ≤ room) × ((c ≡ n) ⊎ (c ≡ room))

pub first_entry-append :
    (d name : ℕ → ℕ) (blk n k e : ℕ)
    → first_entry d name blk (n + k) e ≡ (elim (first_entry d name blk n e) [
      | none ↦ first_entry d name blk k (e + n)
      | some x ↦ some x
    ])
first_entry-append d name blk zero k e =
    let none_yet : 0 + k ≡ k = omega arith in
    rw none_yet (ap (first_entry d name blk k) (omega arith))
first_entry-append d name blk (suc n) k e =
    let sum : suc n + k ≡ suc (n + k) = omega arith in
    ap (λ x. first_entry d name blk x e) sum
    ∙ elim (Bool-cases (is_named d name (entry_place blk e))) [
      | inl h ↦ rw h refl
      | inr h ↦ rw h (
          first_entry-append d name blk n k (e + 1)
          ∙ ap
              (λ x. elim (first_entry d name blk n (e + 1)) [
                | none ↦ first_entry d name blk k x
                | some y ↦ some y
              ])
              (omega arith))
    ]

-- A sector in the buffer shows the entries of the disk.
module _ (b d : ℕ → ℕ) (blk : ℕ)
    (same : (i : ℕ) → i < sector_size → b i ≡ d (blk * sector_size + i)) where
  is_named-sector :
      (name : ℕ → ℕ) (j : ℕ)
      → j < 32
      → is_named b name (j * dir_entry_size)
        ≡ is_named d name (blk * sector_size + j * dir_entry_size)
  is_named-sector name j h =
      let at_byte : (i : ℕ)
          → 0 ≤ i
          → i < 0 + max_filename_len
          → entry_name b (j * dir_entry_size) i
            ≡ entry_name d (blk * sector_size + j * dir_entry_size) i =
        λ i l u. same (j * dir_entry_size + 4 + i) (omega arith) ∙ ap d (omega arith) in
      ap (λ x. x == 0) (memcmp-cong name _ _ max_filename_len 0 at_byte)

  pub entry_inode_nr-sector :
      (j : ℕ)
      → j < 32
      → entry_inode_nr b (j * dir_entry_size)
        ≡ entry_inode_nr d (blk * sector_size + j * dir_entry_size)
  entry_inode_nr-sector j h =
      let at_byte : (k : ℕ)
          → k < 4
          → b (j * dir_entry_size + k) ≡ d (blk * sector_size + j * dir_entry_size + k) =
        λ k u. same (j * dir_entry_size + k) (omega arith) ∙ ap d (omega arith) in
      ground (
        arith,
        same (j * dir_entry_size) (omega arith),
        at_byte 1 (omega arith),
        at_byte 2 (omega arith),
        at_byte 3 (omega arith),
      )

  -- The inner loop is the search for the first entry.
  pub search_sector-first :
      (name : ℕ → ℕ) (blk0 nr i n j m c : ℕ)
      → blk ≡ blk0 + i
      → j + n ≡ 32
      → m ≡ 32 * i + j
      → m ≤ nr
      → IsLeast c n (nr + 1 - m)
      → search_sector b name nr n j m ≡ (elim (first_entry d name blk0 c m) [
        | none ↦ counted (m + c)
        | some e ↦ returned (answer d blk0 (some e))
      ])
  unfolding search_sector
  search_sector-first name blk0 nr i zero j m c eb ej em le l =
      let nothing : c ≡ 0 = ground (arith, l) in rw nothing (ap counted (omega arith))
  search_sector-first name blk0 nr i (suc n) j m c eb ej em le l =
      let place : entry_place blk0 m ≡ blk * sector_size + j * dir_entry_size = omega arith in
      let more : c ≡ suc (c - 1) = ground (arith, l) in
      let name_there = is_named-sector name j (omega arith) in
      let nr_there = entry_inode_nr-sector j (omega arith) in
      elim (Bool-cases (is_named d name (entry_place blk0 m))) [
        | inl h ↦
            let hb = name_there ∙ ap (is_named d name) (sym place) ∙ h in
            rw (more, hb, h) (ap returned (nr_there ∙ ap (entry_inode_nr d) (sym place)))
        | inr h ↦
            let hb = name_there ∙ ap (is_named d name) (sym place) ∙ h in
            elim (Bool-cases (ltb nr (m + 1))) [
              | inl last ↦
                  let one : c ≡ 1 = ground (arith, l) in
                  rw (one, hb, last, h) (ap counted (ground (arith, l)))
              | inr on ↦
                  rw (more, hb, on, h)
                    (search_sector-first name blk0 nr i n (j + 1) (m + 1) (c - 1) eb (omega arith)
                        (omega arith) (ground arith) (ground (arith, l))
                      ∙ ap
                          (λ x. elim (first_entry d name blk0 (c - 1) (m + 1)) [
                            | none ↦ counted x
                            | some e ↦ returned (answer d blk0 (some e))
                          ])
                          (omega arith))
            ]
      ]
