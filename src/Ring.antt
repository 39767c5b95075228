-- ===== src/Ring.antt =====
-- kernel/keyboard.c and kernel/tty.c: the ring buffers of scan codes and of keys. A pointer into the
-- array is the index of its slot.
pub mod Queue
use osin32bits.Base.{ℕ, suc, ◌+◌, ◌-◌, ◌==◌, ltb, update, if◌then◌else◌}

-- `struct kb_inbuf`, and the ibuf of `TTY`.
pub record Ring : Type 0 where
  pub buf : ℕ → ℕ
  pub head : ℕ
  pub tail : ℕ
  pub count : ℕ

-- `p++; if (p == buf + size) p = buf;`
abbrev pub bump : ℕ → ℕ → ℕ
bump size i = if i + 1 == size then 0 else i + 1

-- A write at the head, unless the ring is full.
unfoldable pub put : ℕ → Ring → ℕ → Ring
put size r x =
    if ltb r.count size
    then record r { buf = update r.buf r.head x; head = bump size r.head; count = suc r.count }
    else r

-- A read at the tail.
unfoldable pub take : ℕ → Ring → ℕ × Ring
take size r = (r.buf r.tail, record r { tail = bump size r.tail; count = r.count - 1 })
