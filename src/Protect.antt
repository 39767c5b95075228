-- ===== src/Protect.antt =====
-- include/protect.h and kernel/protect.c: segment descriptors. The fields of `struct descriptor`
-- are unsigned bytes and words whose parts do not overlap, so `|` of shifted fields is a sum.
use osin32bits.Base.{ℕ, ◌+◌, ◌*◌, ◌/◌, ◌%◌, ◌^◌, ◌<◌, ◌≡◌, arith}

pub record Descriptor : Type 0 where
  pub limit_low : ℕ  -- u16
  pub base_low : ℕ  -- u16
  pub base_mid : ℕ  -- u8
  pub attr1 : ℕ  -- u8
  pub limit_high_attr2 : ℕ  -- u8
  pub base_high : ℕ  -- u8

-- `init_desc`: `x & 0xFF` is `x % 2 ^ 8`, and `(attribute >> 8) & 0xF0` keeps bits 12 to 15.
unfoldable pub init_desc : (base limit attribute : ℕ) → Descriptor
init_desc base limit attribute = record {
  limit_low = limit % 2 ^ 16;
  base_low = base % 2 ^ 16;
  base_mid = base / 2 ^ 16 % 2 ^ 8;
  attr1 = attribute % 2 ^ 8;
  limit_high_attr2 = limit / 2 ^ 16 % 2 ^ 4 + attribute / 2 ^ 12 % 2 ^ 4 * 2 ^ 4;
  base_high = base / 2 ^ 24 % 2 ^ 8;
}

-- `base_high << 24 | base_mid << 16 | base_low`, as a u32.
abbrev pub base_of : Descriptor → ℕ
base_of d = (d.base_high * 2 ^ 24 + d.base_mid * 2 ^ 16 + d.base_low) % 2 ^ 32

-- `seg2linear`: the base of the GDT entry that a selector names.
unfoldable pub seg2linear : (gdt : ℕ → Descriptor) → (seg : ℕ) → ℕ
seg2linear gdt seg = base_of (gdt (seg / 2 ^ 3))

-- For a base of 32 bits, the descriptor that `init_desc` fills gives it back, whatever the limit
-- and the attribute are.
pub base_of-init_desc :
    (base limit attribute : ℕ) → base < 2 ^ 32 → base_of (init_desc base limit attribute) ≡ base
unfolding init_desc
base_of-init_desc base limit attribute h = omega arith
