-- ===== src/Tty/Trace.antt =====
-- What a key does to the request of a terminal, with the characters that are to be shown in place of
-- the console: the reference for the loop of `tty_dev_write`.
use osin32bits.Base.{
  ℕ, suc, ◌+◌, ◌-◌, ◌%◌, not, ◌&&◌, ◌||◌, List, [], ◌∷◌, ◌++◌, ◌==◌, update, if◌then◌else◌,
}
use osin32bits.Tty.{new_line, backspace, is_printable, Tty, Resume}

-- A terminal without its console: the characters to be shown, the bytes of memory by linear address,
-- and the messages sent, the oldest first.
pub record Trace : Type 0 where
  pub tty : Tty
  pub shown : List ℕ
  pub bytes : ℕ → ℕ
  pub sent : List Resume

-- A character goes into the buffer of the request, or takes the last one back.
unfoldable pub trace_char : Trace → ℕ → Trace
trace_char s ch =
    let t = s.tty in
    if is_printable ch
    then record s {
      tty = record t { tty_trans_cnt = suc t.tty_trans_cnt; tty_left_cnt = t.tty_left_cnt - 1 };
      shown = s.shown ++ ch ∷ [];
      bytes = update s.bytes (t.tty_req_buf + t.tty_trans_cnt) ch;
    }
    else (if (ch == backspace) && not (t.tty_trans_cnt == 0)
        then record s {
          tty = record t { tty_trans_cnt = t.tty_trans_cnt - 1; tty_left_cnt = suc t.tty_left_cnt };
          shown = s.shown ++ ch ∷ [];
        }
        else s)

-- The end of a line, or of the buffer, completes the request.
unfoldable pub trace_end : Trace → ℕ → Trace
trace_end s ch =
    let t = s.tty in
    if (ch == new_line) || (t.tty_left_cnt == 0)
    then record s {
      tty = record t { tty_left_cnt = 0 };
      shown = s.shown ++ new_line ∷ [];
      sent =
          s.sent
          ++ record { dest = t.tty_caller; proc_nr = t.tty_procnr; cnt = t.tty_trans_cnt } ∷ [];
    }
    else s

-- What the loop does with a key.
unfoldable pub trace_key : Trace → ℕ → Trace
trace_key s key =
    let ch = key % 256 in if s.tty.tty_left_cnt == 0 then s else trace_end (trace_char s ch) ch
