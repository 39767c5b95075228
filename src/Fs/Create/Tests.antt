-- ===== src/Fs/Create/Tests.antt =====
-- The file "c" is entered into the directory of the sample device.
use osin32bits.Base.{ℕ, ◌≡◌, ◌+◌, ◌<◌, refl, [], ◌∷◌, ok, arith}
use osin32bits.Fs.Types.{Fs}
use osin32bits.Fs.Path.{search_file}
use osin32bits.Fs.Create.{new_dir_entry}
use osin32bits.Fs.Create.Found.{HasRoom, free_place, new_dir_entry-search_file}
use osin32bits.Fs.Sample.{block, device, bytes_at, start, super_block-start}

third : free_place start 0 ≡ 3
unfolding osin32bits.Fs.Create.Free.first_free
third = refl

behind : (i : ℕ) → 1 < i → i < 12 → bytes_at device (5172 + i) ≡ 0
behind i l u = ground arith

start-HasRoom : HasRoom start 0 (99 ∷ []) block
start-HasRoom = record {
  has_sb = super_block-start start refl;
  size = omega arith;
  front = omega arith;
  clear = λ i l u. rw third (behind i l u);
}

new_dir_entry-search_file_example :
    (t : Fs) × (new_dir_entry start 0 7 (99 ∷ []) ≡ ok t) × ((search_file t (99 ∷ [])).0 ≡ 7)
unfolding osin32bits.Fs.Path.strip_path osin32bits.Fs.Path.copy_name osin32bits.Text.memcmp
new_dir_entry-search_file_example =
    new_dir_entry-search_file start 0 7 (99 ∷ []) (99 ∷ []) block refl
      (λ e. absurd (omega (arith, e))) start-HasRoom (omega arith) (rw third refl)
