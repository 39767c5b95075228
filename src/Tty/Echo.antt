-- ===== src/Tty/Echo.antt =====
-- kernel/tty.c `tty_dev_write`: the console gets the characters of the trace, in their order.
use osin32bits.Base.{
  ℕ, zero, suc, ◌%◌, ◌<◌, ◌≡◌, refl, ap, sym, subst, ◌∙◌, Bool, true, false, not, ◌&&◌, ◌||◌, inl,
  inr, List, [], ◌∷◌, ◌++◌, Run, ok, ◌>>=◌, arith, ◌==◌, if◌then◌else◌, Bool-cases,
}
use mathlib.Core.List.{append-nil, append_assoc}
use osin32bits.Console.{Console, Video, out_char}
use osin32bits.Ring.{Ring, take}
use osin32bits.Ring.Queue.{IsRing, queue_of, take-queue_of, take-count}
use osin32bits.Tty.{
  tty_in_bytes, new_line, backspace, is_printable, Terminal, edit_char, complete, write_key,
  dev_write,
}
use osin32bits.Tty.Trace.{Trace, trace_char, trace_end, trace_key}
use osin32bits.Tty.Keys.{with_ring, trace_key-with_ring}
use osin32bits.Tty.Runs.{trace_keys}
use osin32bits.Tty.Output.{out_chars, >>=-cong, >>=_assoc, out_chars-append}

-- A trace on a screen, where its characters have been shown.
abbrev pub on_screen : Trace → Console × Video → Terminal
on_screen t w = record { tty = t.tty; screen = w; bytes = t.bytes; sent = t.sent }

-- `run` goes from the trace `t` to the trace `t'`, on each screen, as far as the new characters can be
-- shown.
pub record Shows (fuel : ℕ) (t : Trace) (run : Console × Video → Run Terminal) (t' : Trace)
    : Type 0 where
  pub echo : List ℕ
  pub adds : t'.shown ≡ t.shown ++ echo
  pub runs : (w : Console × Video) → run w ≡ (out_chars fuel echo w >>= λ w'. ok (on_screen t' w'))

module _ (fuel : ℕ) where
  Shows-none : (t : Trace) → Shows fuel t (λ w. ok (on_screen t w)) t
  unfolding out_chars
  Shows-none t = record { echo = []; adds = sym (append-nil t.shown); runs = λ w. refl }

  Shows-one :
      (t t' : Trace) (ch : ℕ)
      → t'.shown ≡ t.shown ++ ch ∷ []
      → Shows fuel t (λ w. out_char fuel w.0 w.1 ch >>= λ w'. ok (on_screen t' w')) t'
  unfolding out_chars
  Shows-one t t' ch e = record {
    echo = ch ∷ [];
    adds = e;
    runs = λ (c, v). sym (>>=_assoc (out_char fuel c v ch) ok (λ w'. ok (on_screen t' w')));
  }

  Shows-if :
      {t t1 t2 : Trace} {r1 r2 : Console × Video → Run Terminal} (b : Bool)
      → Shows fuel t r1 t1
      → Shows fuel t r2 t2
      → Shows fuel t (λ w. if b then r1 w else r2 w) (if b then t1 else t2)
  Shows-if true h1 h2 = h1
  Shows-if false h1 h2 = h2

  Shows-then :
      {t t1 t2 : Trace} {r : Console × Video → Run Terminal} (k : Terminal → Run Terminal)
      → Shows fuel t r t1
      → Shows fuel t1 (λ w. k (on_screen t1 w)) t2
      → Shows fuel t (λ w. r w >>= k) t2
  Shows-then {t} {t1} {t2} {r} k h h' = record {
    echo = h.echo ++ h'.echo;
    adds = h'.adds ∙ ap (λ l. l ++ h'.echo) h.adds ∙ append_assoc t.shown h.echo h'.echo;
    runs = λ w.
        let last : Console × Video → Run Terminal = λ w'. ok (on_screen t2 w') in
        ap (λ x. x >>= k) (h.runs w)
        ∙ >>=_assoc (out_chars fuel h.echo w) (λ w'. ok (on_screen t1 w')) k
        ∙ >>=-cong (out_chars fuel h.echo w) h'.runs
        ∙ sym (>>=_assoc (out_chars fuel h.echo w) (out_chars fuel h'.echo) last)
        ∙ ap (λ x. x >>= last) (sym (out_chars-append fuel h.echo h'.echo w));
  }

  edit_char-Shows :
      (t : Trace) (ch : ℕ) → Shows fuel t (λ w. edit_char fuel (on_screen t w) ch) (trace_char t ch)
  unfolding edit_char trace_char
  edit_char-Shows t ch = Shows-if (is_printable ch) (Shows-one t _ ch refl) (
      Shows-if ((ch == backspace) && not (t.tty.tty_trans_cnt == 0)) (Shows-one t _ ch refl)
        (Shows-none t))

  complete-Shows :
      (t : Trace) (ch : ℕ) → Shows fuel t (λ w. complete fuel (on_screen t w) ch) (trace_end t ch)
  unfolding complete trace_end
  complete-Shows t ch =
      Shows-if (ch == new_line || (t.tty.tty_left_cnt == 0)) (Shows-one t _ new_line refl)
        (Shows-none t)

  write_key-Shows :
      (t : Trace) (k : ℕ) → Shows fuel t (λ w. write_key fuel (on_screen t w) k) (trace_key t k)
  unfolding write_key trace_key
  write_key-Shows t k = Shows-if (t.tty.tty_left_cnt == 0) (Shows-none t) (
      Shows-then (λ u. complete fuel u (k % 256)) (edit_char-Shows t (k % 256))
        (complete-Shows (trace_char t (k % 256)) (k % 256)))

  -- The loop empties the ring.
  pub dev_write-Shows :
      (rounds : ℕ) (t : Trace) (r : Ring)
      → IsRing tty_in_bytes r
      → r.count < rounds
      → (r' : Ring) × (r'.count ≡ 0)
        × Shows fuel
            (with_ring t r)
            (λ w. dev_write fuel rounds (on_screen (with_ring t r) w))
            (with_ring (trace_keys t (queue_of tty_in_bytes r)) r')
  unfolding dev_write
  dev_write-Shows zero t r v h = absurd (omega arith)
  dev_write-Shows (suc rounds) t r v h = elim (Bool-cases (r.count == 0)) [
    | inl e ↦
        let none_left : r.count ≡ 0 = ground arith in
        let empty : queue_of tty_in_bytes r ≡ [] = rw none_left in
        let none = Shows-none (with_ring t r) in
        (
          r,
          none_left,
          rw empty (record { echo = none.echo; adds = none.adds; runs = λ w. rw e (none.runs w) }),
        )
    | inr e ↦
        let more : 0 < r.count = ground arith in
        let (w, first) = take-queue_of tty_in_bytes r v more in
        let key = (take tty_in_bytes r).0 in
        let rest = (take tty_in_bytes r).1 in
        let (r', none_left, last) =
          dev_write-Shows rounds (trace_key t key) rest w
            (omega (arith, take-count tty_in_bytes r)) in
        let one =
          subst
            (λ x.
              Shows fuel (with_ring t rest)
                (λ v'. write_key fuel (on_screen (with_ring t rest) v') key) x)
            (trace_key-with_ring t rest key) (write_key-Shows (with_ring t rest) key) in
        let both = Shows-then (dev_write fuel rounds) one last in
        (
          r',
          none_left,
          rw first
              (record { echo = both.echo; adds = both.adds; runs = λ v'. rw e (both.runs v') }),
        )
  ]
