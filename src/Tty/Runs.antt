-- ===== src/Tty/Runs.antt =====
-- kernel/tty.c `tty_dev_write`: what a row of keys does to a request.
use osin32bits.Base.{
  ℕ, suc, ◌+◌, ◌-◌, ◌%◌, ◌≤◌, ◌<◌, ◌≡◌, refl, ◌⊎◌, true, false, inl, inr, List, [], ◌∷◌, ◌++◌,
  arith, ◌==◌, if◌then◌else◌, Bool-cases, length, ◌∙◌, sym, ap,
}
use mathlib.Core.List.{append-nil, append_assoc}
use osin32bits.Ring.{Ring}
use osin32bits.Tty.{new_line, backspace}
use osin32bits.Tty.Trace.{Trace, trace_key}
use osin32bits.Tty.Keys.{
  finish, typed_in, Key, closed, ends, fills, types, rubs, skips, trace_key-Key, with_ring,
  trace_key-with_ring,
}
use osin32bits.Tty.Line.{
  drop_last, typed, echoed, read_bytes, length-read_bytes, read_bytes-append, read_bytes-drop_last,
}

-- The terminal `u` after the characters `cs`, for a request of `s` for `cnt` characters that has got
-- `line` so far.
pub record Typed (s : Trace) (cnt : ℕ) (line cs : List ℕ) (u : Trace) : Type 0 where
  pub text : read_bytes u.bytes s.tty.tty_req_buf u.tty.tty_trans_cnt ≡ (typed cnt line cs).0
  pub answer : u.sent ≡ (
      if (typed cnt line cs).1
      then s.sent
        ++ record { dest = s.tty.tty_caller; proc_nr = s.tty.tty_procnr; cnt = u.tty.tty_trans_cnt }
          ∷ []
      else s.sent)
  pub left : u.tty.tty_left_cnt ≡ (if (typed cnt line cs).1 then 0 else cnt - u.tty.tty_trans_cnt)
  pub fits : u.tty.tty_trans_cnt ≤ cnt
  pub shown : u.shown ≡ s.shown ++ echoed cnt line cs
  pub outside :
      (a : ℕ) → ((a < s.tty.tty_req_buf) ⊎ (s.tty.tty_req_buf + cnt ≤ a)) → u.bytes a ≡ s.bytes a

-- The request of a terminal: how much it asks for, and what it has got.
abbrev pub asked : Trace → ℕ
asked s = s.tty.tty_trans_cnt + s.tty.tty_left_cnt

abbrev pub got : Trace → List ℕ
got s = read_bytes s.bytes s.tty.tty_req_buf s.tty.tty_trans_cnt

-- The characters of the keys.
abbrev pub chars : List ℕ → List ℕ
chars [] = []
chars (k ∷ ks) = k % 256 ∷ chars ks

-- The keys in turn.
abbrev pub trace_keys : Trace → List ℕ → Trace
trace_keys s [] = s
trace_keys s (k ∷ ks) = trace_keys (trace_key s k) ks

pub trace_keys-closed : (s : Trace) (ks : List ℕ) → s.tty.tty_left_cnt ≡ 0 → trace_keys s ks ≡ s
unfolding trace_key
trace_keys-closed s [] e = refl
trace_keys-closed s (k ∷ ks) e =
    let shut : (s.tty.tty_left_cnt == 0) ≡ true = ground arith in rw shut (trace_keys-closed s ks e)

-- A key that leaves the request open.
carry :
    (s : Trace) (l t : ℕ) (o : List ℕ) (b : ℕ → ℕ) (cnt : ℕ) (line line' cs cs' : List ℕ)
    (w : Trace)
    → typed cnt line cs ≡ typed cnt line' cs'
    → s.shown ++ echoed cnt line cs ≡ o ++ echoed cnt line' cs'
    → ((a : ℕ) → ((a < s.tty.tty_req_buf) ⊎ (s.tty.tty_req_buf + cnt ≤ a)) → b a ≡ s.bytes a)
    → Typed
        (record s {
          tty = record s.tty { tty_left_cnt = l; tty_trans_cnt = t };
          shown = o;
          bytes = b;
        })
        cnt
        line'
        cs'
        w
    → Typed s cnt line cs w
carry s l t o b cnt line line' cs cs' w e same frame v = record {
  text = rw e v.text;
  answer = rw e v.answer;
  left = rw e v.left;
  fits = v.fits;
  shown = v.shown ∙ sym same;
  outside = λ a h. v.outside a h ∙ frame a h;
}

-- The request after one key, when the rest of the keys do what they should.
Key-Typed :
    (s : Trace) (k : ℕ) (ks : List ℕ) (u : Trace)
    → Key s k u
    → 0 < s.tty.tty_left_cnt
    → (0 < u.tty.tty_left_cnt → Typed u (asked u) (got u) (chars ks) (trace_keys u ks))
    → Typed s (asked s) (got s) (k % 256 ∷ chars ks) (trace_keys u ks)
unfolding typed echoed
Key-Typed s k ks u (closed e) h rest = absurd (omega arith)
Key-Typed s k ks u (ends h n) _ rest =
    rw (trace_keys-closed (finish s) ks refl, n)
      (record {
        text = refl;
        answer = refl;
        left = refl;
        fits = omega arith;
        shown = refl;
        outside = λ a _. refl;
      })
Key-Typed s k ks u (fills one p) _ rest =
    let not_end : (k % 256 == new_line) ≡ false = ground arith in
    let last : (suc (length (got s)) == asked s) ≡ true =
      ground (arith, length-read_bytes s.bytes s.tty.tty_req_buf s.tty.tty_trans_cnt) in
    rw (trace_keys-closed (finish (typed_in s (k % 256))) ks refl) (record {
      text =
          rw (not_end, p, last)
            (read_bytes-append s.bytes s.tty.tty_req_buf s.tty.tty_trans_cnt (k % 256) _ refl);
      answer = rw (not_end, p, last);
      left = rw (not_end, p, last);
      fits = omega arith;
      shown = rw (not_end, p, last) (append_assoc s.shown (k % 256 ∷ []) (new_line ∷ []));
      outside = λ a o. ground arith;
    })
Key-Typed s k ks u (types more p) _ rest =
    let not_end : (k % 256 == new_line) ≡ false = ground arith in
    let not_last : (suc (length (got s)) == asked s) ≡ false =
      ground (arith, length-read_bytes s.bytes s.tty.tty_req_buf s.tty.tty_trans_cnt) in
    let same : asked u ≡ asked s = omega arith in
    let longer : got u ≡ got s ++ k % 256 ∷ [] =
      read_bytes-append s.bytes s.tty.tty_req_buf s.tty.tty_trans_cnt (k % 256) _ refl in
    carry s _ _ _ _ (asked s) (got s) (got u) (k % 256 ∷ chars ks) (chars ks) (trace_keys u ks)
      (rw (not_end, p, not_last, longer))
      (rw (not_end, p, not_last, longer) (sym (append_assoc s.shown (k % 256 ∷ []) _)))
      (λ a o. ground arith) (rw same at (rest (omega arith)))
Key-Typed s k ks u (rubs h b n) _ rest =
    let same : asked u ≡ asked s = omega arith in
    let some_got : (length (got s) == 0) ≡ false =
      ground (arith, length-read_bytes s.bytes s.tty.tty_req_buf s.tty.tty_trans_cnt) in
    let shorter : drop_last (got s) ≡ got u =
      read_bytes-drop_last s.bytes s.tty.tty_req_buf s.tty.tty_trans_cnt in
    carry s _ _ _ _ (asked s) (got s) (got u) (k % 256 ∷ chars ks) (chars ks) (trace_keys u ks)
      (rw (b, shorter)) (rw (b, some_got, shorter) (sym (append_assoc s.shown (backspace ∷ []) _)))
      (λ a o. refl) (rw same at (rest (omega arith)))
Key-Typed s k ks u (skips h p n b) g rest =
    carry s _ _ _ _ (asked s) (got s) (got s) (k % 256 ∷ chars ks) (chars ks) (trace_keys s ks)
      (rw (n, p) same) (ap (λ e. s.shown ++ e) (rw (n, p) same_echo)) (λ a o. refl) (rest g)
  where
    same :
        (if k % 256 == backspace
          then typed (asked s) (drop_last (got s)) (chars ks)
          else typed (asked s) (got s) (chars ks))
        ≡ typed (asked s) (got s) (chars ks)
    same = elim (Bool-cases (k % 256 == backspace)) [
      | inl e ↦
          let empty : s.tty.tty_trans_cnt - 1 ≡ s.tty.tty_trans_cnt = ground (arith, b, e) in
          rw (e, read_bytes-drop_last s.bytes s.tty.tty_req_buf s.tty.tty_trans_cnt, empty)
      | inr e ↦ rw e
    ]

    same_echo :
        (if k % 256 == backspace
          then (if length (got s) == 0
              then echoed (asked s) (got s) (chars ks)
              else k % 256 ∷ echoed (asked s) (drop_last (got s)) (chars ks))
          else echoed (asked s) (got s) (chars ks))
        ≡ echoed (asked s) (got s) (chars ks)
    same_echo = elim (Bool-cases (k % 256 == backspace)) [
      | inl e ↦
          let none_got : (length (got s) == 0) ≡ true =
            ground (arith, b, e, length-read_bytes s.bytes s.tty.tty_req_buf s.tty.tty_trans_cnt) in
          rw (e, none_got)
      | inr e ↦ rw e
    ]

pub trace_keys-Typed :
    (s : Trace) (ks : List ℕ)
    → 0 < s.tty.tty_left_cnt
    → Typed s (asked s) (got s) (chars ks) (trace_keys s ks)
unfolding typed echoed
trace_keys-Typed s [] h = record {
  text = refl;
  answer = refl;
  left = omega arith;
  fits = omega arith;
  shown = sym (append-nil s.shown);
  outside = λ a _. refl;
}
trace_keys-Typed s (k ∷ ks) h =
    Key-Typed s k ks (trace_key s k) (trace_key-Key s k) h (trace_keys-Typed (trace_key s k) ks)

pub trace_keys-with_ring :
    (s : Trace) (r : Ring) (ks : List ℕ)
    → trace_keys (with_ring s r) ks ≡ with_ring (trace_keys s ks) r
trace_keys-with_ring s r [] = refl
trace_keys-with_ring s r (k ∷ ks) =
    rw (trace_key-with_ring s r k) (trace_keys-with_ring (trace_key s k) r ks)
