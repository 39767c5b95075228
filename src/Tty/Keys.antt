-- ===== src/Tty/Keys.antt =====
-- kernel/tty.c: what one key does to a terminal, by the cases of `tty_dev_write`.
use osin32bits.Base.{
  ℕ, suc, ◌+◌, ◌-◌, ◌%◌, ◌<◌, ◌≡◌, ◌≢◌, true, false, not, ◌&&◌, ◌||◌, inl, inr, [], ◌∷◌, ◌++◌,
  arith, ◌==◌, update, Bool-cases,
}
use osin32bits.Ring.{Ring}
use osin32bits.Tty.{new_line, backspace, is_printable}
use osin32bits.Tty.Trace.{Trace, trace_char, trace_end, trace_key}

-- The three things that a key can do to a request.
abbrev pub finish : Trace → Trace
finish s = record s {
  tty = record s.tty { tty_left_cnt = 0 };
  shown = s.shown ++ new_line ∷ [];
  sent =
      s.sent
      ++ record { dest = s.tty.tty_caller; proc_nr = s.tty.tty_procnr; cnt = s.tty.tty_trans_cnt }
        ∷ [];
}

abbrev pub typed_in : Trace → ℕ → Trace
typed_in s ch = record s {
  tty = record s.tty {
    tty_trans_cnt = suc s.tty.tty_trans_cnt;
    tty_left_cnt = s.tty.tty_left_cnt - 1;
  };
  shown = s.shown ++ ch ∷ [];
  bytes = update s.bytes (s.tty.tty_req_buf + s.tty.tty_trans_cnt) ch;
}

abbrev pub rubbed : Trace → ℕ → Trace
rubbed s ch = record s {
  tty = record s.tty {
    tty_trans_cnt = s.tty.tty_trans_cnt - 1;
    tty_left_cnt = suc s.tty.tty_left_cnt;
  };
  shown = s.shown ++ ch ∷ [];
}

-- What a key does, by the case that it falls under.
pub data Key (s : Trace) (k : ℕ) : Trace → Type 0 where
  closed : s.tty.tty_left_cnt ≡ 0 → Key s k s
  ends : s.tty.tty_left_cnt ≢ 0 → k % 256 ≡ new_line → Key s k (finish s)
  fills :
      s.tty.tty_left_cnt ≡ 1
      → is_printable (k % 256) ≡ true
      → Key s k (finish (typed_in s (k % 256)))
  types : 1 < s.tty.tty_left_cnt → is_printable (k % 256) ≡ true → Key s k (typed_in s (k % 256))
  rubs :
      s.tty.tty_left_cnt ≢ 0
      → k % 256 ≡ backspace
      → s.tty.tty_trans_cnt ≢ 0
      → Key s k (rubbed s (k % 256))
  skips :
      s.tty.tty_left_cnt ≢ 0
      → is_printable (k % 256) ≡ false
      → (k % 256 == new_line) ≡ false
      → ((k % 256 == backspace) && not (s.tty.tty_trans_cnt == 0)) ≡ false
      → Key s k s

pub trace_key-Key : (s : Trace) (k : ℕ) → Key s k (trace_key s k)
unfolding trace_key trace_char trace_end
trace_key-Key s k = elim (Bool-cases (s.tty.tty_left_cnt == 0)) [
  | inl e ↦ rw e (closed (ground arith))
  | inr e ↦ rw e (elim (Bool-cases (is_printable (k % 256))) [
    | inl p ↦
        let not_end : (k % 256 == new_line) ≡ false = ground arith in
        rw (p, not_end)
          (elim (Bool-cases (s.tty.tty_left_cnt - 1 == 0)) [
            | inl z ↦ rw z (fills (ground arith) p)
            | inr z ↦ rw z (types (ground arith) p)
          ])
    | inr p ↦ rw p (elim (Bool-cases ((k % 256 == backspace) && not (s.tty.tty_trans_cnt == 0))) [
      | inl b ↦
          let not_end : (k % 256 == new_line) ≡ false = ground arith in
          let is : k % 256 ≡ backspace = ground arith in
          let room : (suc s.tty.tty_left_cnt == 0) ≡ false = ground arith in
          rw (b, not_end, room) (rubs (ground arith) is (ground arith))
      | inr b ↦ rw b (elim (Bool-cases (k % 256 == new_line)) [
        | inl n ↦ rw n (ends (ground arith) (ground arith))
        | inr n ↦ rw (n, e) (skips (ground arith) p n b)
      ])
    ])
  ])
]

abbrev pub with_ring : Trace → Ring → Trace
with_ring s r = record s { tty = record s.tty { ibuf = r } }

pub trace_key-with_ring :
    (s : Trace) (r : Ring) (k : ℕ) → trace_key (with_ring s r) k ≡ with_ring (trace_key s k) r
unfolding trace_key trace_char trace_end
trace_key-with_ring s r k = elim (Bool-cases (s.tty.tty_left_cnt == 0)) [
  | inl e ↦ rw e
  | inr e ↦ rw e (elim (Bool-cases (is_printable (k % 256))) [
    | inl p ↦ rw p (elim (Bool-cases (k % 256 == new_line || (s.tty.tty_left_cnt - 1 == 0))) [
      | inl z ↦ rw z
      | inr z ↦ rw z
    ])
    | inr p ↦ rw p (elim (Bool-cases ((k % 256 == backspace) && not (s.tty.tty_trans_cnt == 0))) [
      | inl b ↦
          let room : (suc s.tty.tty_left_cnt == 0) ≡ false = ground arith in
          let not_end : (k % 256 == new_line) ≡ false = ground arith in rw (b, not_end, room)
      | inr b ↦ rw b (elim (Bool-cases (k % 256 == new_line)) [ inl n ↦ rw n | inr n ↦ rw (n, e) ])
    ])
  ])
]
