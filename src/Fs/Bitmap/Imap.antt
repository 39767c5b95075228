-- ===== src/Fs/Bitmap/Imap.antt =====
-- fs/open.c `alloc_imap_bit`: the bit that it takes.
use osin32bits.Base.{
  ℕ, zero, suc, ◌+◌, ◌*◌, ◌^◌, ◌≤◌, ◌<◌, ◌≡◌, refl, sym, ap, subst, ◌∙◌, ◌≢◌, ◌⊎◌, inl, inr, Option,
  none, some, true, false, Run, ok, arith, ◌==◌, ltb, update, has_flag, set_flag, Bool-cases,
}
use osin32bits.Fs.Types.{sector_size, SuperBlock, Fs}
use osin32bits.Fs.Sectors.{rd_sect, wr_sect, rd_sect-bytes, wr_sect-update}
use osin32bits.Fs.Inodes.{get_super_block}
use osin32bits.Fs.Bitmap.{first_zero, first_byte, alloc_imap_bit}

-- The first clear bit of the byte.
pub record IsFirstClear (byte k : ℕ) : Type 0 where
  pub below : k < 8
  pub clear : has_flag byte (2 ^ k) ≡ false
  pub set_before : (m : ℕ) → m < k → has_flag byte (2 ^ m) ≡ true

first_zero-scan :
    (byte n k : ℕ)
    → ((m : ℕ) → m < k → has_flag byte (2 ^ m) ≡ true)
    → (k ≤ first_zero byte n k)
      × (first_zero byte n k ≤ k + n)
      × ((first_zero byte n k < k + n) → has_flag byte (2 ^ first_zero byte n k) ≡ false)
      × ((m : ℕ) → m < first_zero byte n k → has_flag byte (2 ^ m) ≡ true)
unfolding first_zero
first_zero-scan byte zero k h = (omega arith, omega arith, λ l. absurd (omega arith), h)
first_zero-scan byte (suc n) k h = elim (Bool-cases (has_flag byte (2 ^ k))) [
  | inl e ↦
      let h' : (m : ℕ) → m < k + 1 → has_flag byte (2 ^ m) ≡ true = λ m l.
        elim (Bool-cases (m == k)) [
          | inl here ↦ let same : m ≡ k = ground arith in rw same e
          | inr before ↦ h m (ground arith)
        ] in
      let (a, b, c, d) = first_zero-scan byte n (k + 1) h' in
      rw e (omega arith, omega arith, λ l. c (omega arith), d)
  | inr e ↦ rw e (omega arith, omega arith, λ l. e, h)
]

all_set : (byte : ℕ) → byte < 256 → ((m : ℕ) → m < 8 → has_flag byte (2 ^ m) ≡ true) → byte ≡ 0xFF
all_set byte b h = ground (
  arith,
  h 0 (omega arith),
  h 1 (omega arith),
  h 2 (omega arith),
  h 3 (omega arith),
  h 4 (omega arith),
  h 5 (omega arith),
  h 6 (omega arith),
  h 7 (omega arith),
)

pub first_zero-IsFirstClear :
    (byte : ℕ) → byte < 256 → byte ≢ 0xFF → IsFirstClear byte (first_zero byte 8 0)
first_zero-IsFirstClear byte b ne =
    let (a, u, c, d) = first_zero-scan byte 8 0 (λ m l. absurd (omega arith)) in
    elim (Bool-cases (ltb (first_zero byte 8 0) 8)) [
      | inl lt ↦ record { below = ground arith; clear = c (ground arith); set_before = d }
      | inr ge ↦ absurd (ne (all_set byte b (λ m l. d m (ground arith))))
    ]

data FirstFree (b : ℕ → ℕ) (i top : ℕ) : Option ℕ → Type 0 where
  found :
      (j : ℕ)
      → j < top
      → b j ≢ 0xFF
      → ((m : ℕ) → i ≤ m → m < j → b m ≡ 0xFF)
      → FirstFree b i top (some j)
  exhausted : ((m : ℕ) → i ≤ m → m < top → b m ≡ 0xFF) → FirstFree b i top none

FirstFree-step :
    {b : ℕ → ℕ} {i top : ℕ} {r : Option ℕ}
    → b i ≡ 0xFF
    → FirstFree b (i + 1) top r
    → FirstFree b i top r
FirstFree-step {b} {i} e (found j l ne h) = found j l ne (λ m a c. elim (Bool-cases (m == i)) [
  | inl here ↦ let same : m ≡ i = ground arith in rw same e
  | inr later ↦ h m (ground arith) c
])
FirstFree-step {b} {i} e (exhausted h) = exhausted (λ m a c. elim (Bool-cases (m == i)) [
  | inl here ↦ let same : m ≡ i = ground arith in rw same e
  | inr later ↦ h m (ground arith) c
])

first_byte-FirstFree :
    (b : ℕ → ℕ) (n i top : ℕ) → i + n ≡ top → FirstFree b i top (first_byte b n i)
unfolding first_byte
first_byte-FirstFree b zero i top e = exhausted (λ m a c. absurd (omega arith))
first_byte-FirstFree b (suc n) i top e = elim (Bool-cases (b i == 0xFF)) [
  | inl h ↦
      rw h (FirstFree-step (ground arith) (first_byte-FirstFree b n (i + 1) top (omega arith)))
  | inr h ↦ rw h (found i (omega arith) (ground arith) (λ m a c. absurd (omega arith)))
]

-- The place of the byte `j` of the map.
abbrev pub imap_byte : ℕ → ℕ
imap_byte j = 2 * sector_size + j

-- The outcomes of `alloc_imap_bit`.
pub data Allocated (s : Fs) (dev : ℕ) : Run (ℕ × Fs) → Type 0 where
  -- The bit `k` of the byte `j`, the first clear one, is set.
  allocated :
      (j k : ℕ)
      → j < sector_size
      → IsFirstClear (s.disk dev (imap_byte j)) k
      → ((m : ℕ) → m < j → s.disk dev (imap_byte m) ≡ 0xFF)
      → (t : Fs) → t.disk dev (imap_byte j) ≡ s.disk dev (imap_byte j) + 2 ^ k
      → ((d p : ℕ) → ((d ≢ dev) ⊎ (p ≢ imap_byte j)) → t.disk d p ≡ s.disk d p)
      → t.inode_table ≡ s.inode_table
      → Allocated s dev (ok (j * 8 + k, t))
  -- Every bit of the first sector of the map is set.
  first_sector_full :
      ((m : ℕ) → m < sector_size → s.disk dev (imap_byte m) ≡ 0xFF)
      → (t : Fs) → t.disk ≡ s.disk
      → Allocated s dev (ok (0, t))

-- On a disk of bytes with a map of inodes, `alloc_imap_bit` takes the first clear bit of the first
-- sector of the map, and sets this bit alone; if there is none there, it returns 0, whatever the
-- other sectors of the map hold.
pub alloc_imap_bit-Allocated :
    (s : Fs) (dev : ℕ) (sb : SuperBlock)
    → get_super_block s dev ≡ ok sb
    → 0 < sb.nr_imap_sects
    → ((d p : ℕ) → s.disk d p < 256)
    → Allocated s dev (alloc_imap_bit s dev)
unfolding alloc_imap_bit rd_sect wr_sect
alloc_imap_bit-Allocated s dev sb has_sb pos bytes =
    let mapped : (sb.nr_imap_sects == 0) ≡ false = ground arith in
    rw (has_sb, mapped)
      (by_byte (first_byte-FirstFree (rd_sect s dev 2).fsbuf sector_size 0 sector_size refl))
  where
    by_byte :
        {r : Option ℕ}
        → FirstFree (rd_sect s dev 2).fsbuf 0 sector_size r
        → Allocated s dev (elim r [
          | none ↦ ok (0, rd_sect s dev 2)
          | some j ↦
              let t = rd_sect s dev 2 in
              let k = first_zero (t.fsbuf j) 8 0 in
              let b = update t.fsbuf j (set_flag (t.fsbuf j) (2 ^ k)) in
              ok (j * 8 + k, wr_sect (record t { fsbuf = b }) dev 2)
        ])
    by_byte (exhausted h) =
        first_sector_full (λ m l. sym (rd_sect-bytes s dev 2 m l) ∙ h m (omega arith) l) _ refl
    by_byte (found j l ne h) =
        let b = (rd_sect s dev 2).fsbuf in
        let here = rd_sect-bytes s dev 2 j l in
        let free =
          first_zero-IsFirstClear (b j) (subst (λ x. x < 256) (sym here) (bytes dev (imap_byte j)))
            ne in
        let k = first_zero (b j) 8 0 in
        let (new, same) = wr_sect-update s dev 2 j (set_flag (b j) (2 ^ k)) _ l refl in
        let grown : set_flag (b j) (2 ^ k) ≡ b j + 2 ^ k = rw free.clear refl in
        allocated j k l (subst (λ x. IsFirstClear x k) here free)
          (λ m lt. sym (rd_sect-bytes s dev 2 m (omega arith)) ∙ h m (omega arith) lt) _
          (new ∙ grown ∙ ap (λ x. x + 2 ^ k) here) same refl
