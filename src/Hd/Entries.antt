-- ===== src/Hd/Entries.antt =====
-- What the table of partitions in sector 0 says, and the parts of the driver's tables that its
-- entries fill.
use osin32bits.Base.{
  ℕ, zero, suc, ◌+◌, ◌-◌, ◌*◌, ◌/◌, ◌%◌, ◌^◌, ◌≤◌, ◌≡◌, refl, ap, sym, ◌∙◌, ◌&&◌, Bool, not, List,
  [], ◌∷◌, map, true, false, inl, inr, arith, ◌==◌, ltb, leb, if◌then◌else◌, get_or, length,
  Bool-cases,
}
use osin32bits.Hd.Types.{nr_sub_per_part, no_part, ext_part, PartInfo}
use osin32bits.Hd.Tables.{entry, tables, logical_at, placed, placed-nil}

-- What entry `i` of the table in sector 0 says: whether it is used, where its partition lies, and the
-- logical partitions in it.
unfoldable pub is_used : (d : ℕ → ℕ) → (i : ℕ) → Bool
is_used d i = not ((entry d 0 i).sys_id == no_part)

unfoldable pub primary_at : (d : ℕ → ℕ) → (i : ℕ) → PartInfo
primary_at d i = record { base = (entry d 0 i).start_sect; size = (entry d 0 i).nr_sects }

abbrev pub tables_of : (d : ℕ → ℕ) → (i : ℕ) → List ℕ
tables_of d i = tables d (entry d 0 i).start_sect nr_sub_per_part (entry d 0 i).start_sect

pub logicals_at : (d : ℕ → ℕ) → (i : ℕ) → List PartInfo
logicals_at d i =
    if (entry d 0 i).sys_id == ext_part then map (logical_at d) (tables_of d i) else []

pub length-tables : (d : ℕ → ℕ) (ext n s : ℕ) → length (map (logical_at d) (tables d ext n s)) ≤ n
unfolding tables
length-tables d ext zero s = omega arith
length-tables d ext (suc n) s = elim (Bool-cases ((entry d s 1).sys_id == no_part)) [
  | inl e ↦ rw e (omega arith)
  | inr e ↦ rw e (omega (arith, length-tables d ext n ((ext + (entry d s 1).start_sect) % 2 ^ 32)))
]

get_or-past : {A : Type 0} (xs : List A) (i : ℕ) (old : A) → length xs ≤ i → get_or xs i old ≡ old
get_or-past [] i old h = refl
get_or-past (x ∷ xs) zero old h = absurd (omega arith)
get_or-past (x ∷ xs) (suc i) old h = get_or-past xs i old (omega arith)

-- At most 16 partitions stay within their part of the table.
placed-part :
    {A : Type 0} (ps : List A) (i x : ℕ) (old : A)
    → length ps ≤ 16
    → placed ps (i * 16) x old ≡ (if x / 16 == i then get_or ps (x % 16) old else old)
placed-part ps i x old h = elim (Bool-cases (x / 16 == i)) [
  | inl e ↦
      let here : leb (i * 16) x ≡ true = ground arith in
      let at : x - i * 16 ≡ x % 16 = ground arith in rw (e, here, at)
  | inr e ↦ rw e (elim (Bool-cases (leb (i * 16) x)) [
    | inl b ↦ rw b (get_or-past ps (x - i * 16) old (ground arith))
    | inr b ↦ rw b
  ])
]

-- The parts of the tables that entry `i` fills.
module _ {A : Type 0} (i x : ℕ) (old : A) where
  pub one_primary :
      (f : ℕ → A) (used : ℕ → Bool)
      → used i ≡ true
      → (if x == i + 1 then f i else old)
        ≡ (if (ltb i x && leb x (i + 1)) && used (x - 1) then f (x - 1) else old)
  one_primary f used h = elim (Bool-cases (x == i + 1)) [
    | inl e ↦
        let lo : ltb i x ≡ true = ground arith in
        let hi : leb x (i + 1) ≡ true = ground arith in
        let at : x - 1 ≡ i = ground arith in rw (e, lo, hi, at, h)
    | inr e ↦ let out : (ltb i x && leb x (i + 1)) ≡ false = ground arith in rw (e, out)
  ]

  pub no_primary :
      (f : ℕ → A) (used : ℕ → Bool)
      → used i ≡ false
      → old ≡ (if (ltb i x && leb x (i + 1)) && used (x - 1) then f (x - 1) else old)
  no_primary f used h = elim (Bool-cases (x == i + 1)) [
    | inl e ↦
        let lo : ltb i x ≡ true = ground arith in
        let hi : leb x (i + 1) ≡ true = ground arith in
        let at : x - 1 ≡ i = ground arith in rw (lo, hi, at, h)
    | inr e ↦ let out : (ltb i x && leb x (i + 1)) ≡ false = ground arith in rw out
  ]

  one_logical :
      (g : ℕ → List A)
      → (if x / 16 == i then get_or (g i) (x % 16) old else old)
        ≡ (if leb i (x / 16) && ltb (x / 16) (i + 1) then get_or (g (x / 16)) (x % 16) old else old)
  one_logical g = elim (Bool-cases (x / 16 == i)) [
    | inl e ↦
        let lo : leb i (x / 16) ≡ true = ground arith in
        let hi : ltb (x / 16) (i + 1) ≡ true = ground arith in
        let at : x / 16 ≡ i = ground arith in rw (e, lo, hi, at)
    | inr e ↦
        let out : (leb i (x / 16) && ltb (x / 16) (i + 1)) ≡ false = ground arith in rw (e, out)
  ]

pub logicals_at-ext :
    (d : ℕ → ℕ) (i : ℕ)
    → ((entry d 0 i).sys_id == ext_part) ≡ true
    → logicals_at d i ≡ map (logical_at d) (tables_of d i)
unfolding logicals_at
logicals_at-ext d i e = rw e

logicals_at-plain :
    (d : ℕ → ℕ) (i : ℕ) → ((entry d 0 i).sys_id == ext_part) ≡ false → logicals_at d i ≡ []
unfolding logicals_at
logicals_at-plain d i e = rw e

module _ (d : ℕ → ℕ) (i x : ℕ) (old : PartInfo) where
  abbrev pub entered : PartInfo
  entered =
      if leb i (x / 16) && ltb (x / 16) (i + 1)
      then get_or (logicals_at d (x / 16)) (x % 16) old
      else old

  pub logical_entry :
      (ps : List PartInfo)
      → logicals_at d i ≡ ps
      → length ps ≤ 16
      → placed ps (i * 16) x old ≡ entered
  logical_entry ps e h =
      placed-part ps i x old h
      ∙ ap (λ qs. if x / 16 == i then get_or qs (x % 16) old else old) (sym e)
      ∙ one_logical i x old (logicals_at d)

  pub plain_entry : ((entry d 0 i).sys_id == ext_part) ≡ false → old ≡ entered
  plain_entry e =
      sym (placed-nil (i * 16) x old) ∙ logical_entry [] (logicals_at-plain d i e) (omega arith)
