-- ===== src/Various/Packets.antt =====
-- Client/various_functions.cpp: the number of packets of a file.
use secure_file_transfer_sys.Base.{
  ℕ, ◌+◌, ◌-◌, ◌*◌, ◌/◌, ◌^◌, ◌≤◌, ◌<◌, ◌≡◌, arith, leb, if◌then◌else◌,
}
use secure_file_transfer_sys.Base.Int.{ℤ, pos, negsuc, to_int, to_int_fits, quot, rem, ◌+ℤ◌}
use secure_file_transfer_sys.Runtime.{World, done, exited}
use secure_file_transfer_sys.Various.{calculate_total_packets, is_zero}

count_fits :
    (n : ℕ) (w : World)
    → calculate_total_packets (pos n) w
      ≡ (if leb n (4096 * 65535) then done (pos ((n + 4095) / 4096)) else exited, w)
unfolding calculate_total_packets quot rem ◌+ℤ◌
count_fits n w = ground arith

-- A file of less than 2^31 bytes is accepted exactly if 65535 packets of 4096 bytes can hold it, and
-- then the result is the least number of packets that do; any other ends the program.
pub calculate_total_packets_lem :
    (n : ℕ) (w : World)
    → n < 2 ^ 31
    → calculate_total_packets (to_int n) w
      ≡ (if leb n (4096 * 65535) then done (pos ((n + 4095) / 4096)) else exited, w)
calculate_total_packets_lem n w h = rw (to_int_fits n h) (count_fits n w)

-- The count of a negative size is 1 at most, which no limit rejects.
count_negative :
    (k : ℕ) (w : World) → (total : ℤ) × (calculate_total_packets (negsuc k) w ≡ (done total, w))
unfolding calculate_total_packets quot rem ◌+ℤ◌
count_negative k w = (
  (if is_zero (rem (negsuc k) 4096) then quot (negsuc k) 4096 else quot (negsuc k) 4096 +ℤ pos 1),
  ground arith,
)

to_int_negative : (n : ℕ) → 2 ^ 31 ≤ n → n < 2 ^ 32 → to_int n ≡ negsuc (2 ^ 32 - 1 - n)
unfolding to_int
to_int_negative n h k = ground arith

pub calculate_total_packets_huge :
    (n : ℕ) (w : World)
    → 2 ^ 31 ≤ n
    → n < 2 ^ 32
    → (total : ℤ) × (calculate_total_packets (to_int n) w ≡ (done total, w))
calculate_total_packets_huge n w h k = rw (to_int_negative n h k) (count_negative _ w)
