-- ===== src/Session/Packets/Moves.antt =====
-- Client/client.cpp: how the loop's variables move on after a packet.
use secure_file_transfer_sys.Base.{true, arith, false, some, refl, ◌+◌, ◌-◌, ◌*◌, ◌<◌, ◌≤◌, ◌≡◌, ℕ}
use secure_file_transfer_sys.Session.Packets.{Cursor, advance, fits_int}
use secure_file_transfer_sys.Base.Int.{◌-ℤ◌, pos, ltb_ℤ}
use secure_file_transfer_sys.Session.Packets.Fill.{cursor}

-- The cursor after one more packet.
abbrev pub next_cursor : ℕ → ℕ → ℕ → Cursor
next_cursor number begin left = record {
  packet_number = number + 1;
  begin = begin + 4096;
  end = begin + 4096 + 4096;
  counter = pos left -ℤ pos 4096;
}

-- In a file that is small enough the sums fit their `int`s.
pub advance_lem :
    (number begin left : ℕ)
    → number ≤ begin + 1
    → begin + left ≤ 4096 * 65535
    → advance (cursor number begin left) ≡ some (next_cursor number begin left)
unfolding advance
advance_lem number begin left early fits = rw (first, second, third) refl
  where
    first : fits_int (number + 1) ≡ true
    first = ground arith

    second : fits_int (begin + 4096) ≡ true
    second = ground arith

    third : fits_int (begin + 4096 + 4096) ≡ true
    third = ground arith

pub next_full :
    (number begin left : ℕ)
    → 4096 < left
    → next_cursor number begin left ≡ cursor (number + 1) (begin + 4096) (left - 4096)
unfolding ◌-ℤ◌
next_full number begin left h = ground arith

pub next_last :
    (number begin left : ℕ)
    → left ≤ 4096
    → ltb_ℤ (pos 0) (next_cursor number begin left).counter ≡ false
unfolding ◌-ℤ◌
next_last number begin left h = ground arith
