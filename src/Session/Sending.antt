-- ===== src/Session/Sending.antt =====
-- Client/client.cpp: all packets of a file, in `send_file`.
use secure_file_transfer_sys.Base.{
  ◌*◌, ℕ, suc, ◌+◌, ◌/◌, ◌≤◌, ◌<◌, ◌^◌, ◌≡◌, arith, List, [], length, false,
}
use secure_file_transfer_sys.Base.Int.{ℤ, pos, ltb_ℤ, to_int, to_int_fits}
use secure_file_transfer_sys.Runtime.{Bytes, World, done}
use secure_file_transfer_sys.Library.{Library, BoostLaws}
use secure_file_transfer_sys.Request.{Request}
use secure_file_transfer_sys.Request.Layout.{IsShaped}
use secure_file_transfer_sys.Wire.{u16_bytes}
use secure_file_transfer_sys.Various.{calculate_total_packets}
use secure_file_transfer_sys.Various.Packets.{calculate_total_packets_huge}
use secure_file_transfer_sys.Session.Packets.{Transfer}
use secure_file_transfer_sys.Session.Packets.Pieces.{
  IsCut, join, pieces, pieces-join, pieces-IsCut, length-pieces,
}
use secure_file_transfer_sys.Session.Packets.Loop.{
  Writes, sending, packets, send_packets-pieces, send_packets_stop,
}
use secure_file_transfer_sys.Session.Finish.{send_all_packets, first_packet}

-- Under the laws of Boost.Endian, for an encrypted file that 65535 packets of 4096 bytes can hold
-- with its number of packets, a file name of at most 255 bytes, a request of code 828 with an empty payload, and writes
-- that go through: the packets that are sent carry pieces that join to the encrypted file, each of
-- 4096 bytes but for the last, which has 1 to 4096; they are numbered from 1, and there are as many
-- of them as the number that each announces, both in 16 bits.
pub send_all_packets_lem :
    (lib : Library) (laws : BoostLaws lib) (t : Transfer) (total : ℕ) (r : Request) (w : World)
    → t.total_packets ≡ pos total
    → total ≡ (length t.encrypted_file + 4095) / 4096
    → length t.encrypted_file ≤ 4096 * 65535
    → length t.file_name ≤ 255
    → IsShaped r
    → r.code ≡ u16_bytes 828
    → r.payload ≡ []
    → Writes w
    → (cut : List Bytes) × (size : Bytes) × (join cut ≡ t.encrypted_file)
      × IsCut cut
      × (length cut ≡ total)
      × (send_all_packets lib t r w ≡ (
        done (record r { payload_size = size; payload = [] }),
        sending w (packets r.client_id t total 1 cut),
      ))
unfolding send_all_packets
send_all_packets_lem lib laws t total r w is_total count fits name_fits s code empty writes =
    let n = length t.encrypted_file in
    let (size, size_size, sent) =
      send_packets-pieces lib laws t total is_total name_fits fits (suc n) 1 0 n r w (omega arith)
        (omega arith) (omega arith) s code empty writes in
    (
      pieces (suc n) t.encrypted_file,
      size,
      pieces-join (suc n) t.encrypted_file (omega arith),
      pieces-IsCut (suc n) t.encrypted_file (omega arith),
      omega (arith, length-pieces (suc n) t.encrypted_file (omega arith)),
      rw (to_int_fits n (omega (arith, fits))) sent,
    )

to_int-not_positive : (n : ℕ) → 2 ^ 31 ≤ n → n < 2 ^ 32 → ltb_ℤ (pos 0) (to_int n) ≡ false
unfolding to_int
to_int-not_positive n h k = ground arith

-- For an encrypted file of 2^31 bytes or more, and less than 2^32, the size is a negative `int`:
-- `calculate_total_packets` returns, and the packet loop sends nothing.
pub send_all_packets_huge :
    (lib : Library) (t : Transfer) (r : Request) (w : World)
    → 2 ^ 31 ≤ length t.encrypted_file
    → length t.encrypted_file < 2 ^ 32
    → ((total : ℤ) × (calculate_total_packets (to_int (length t.encrypted_file)) w
          ≡ (done total, w)))
      × (send_all_packets lib t r w ≡ (done r, w))
unfolding send_all_packets
send_all_packets_huge lib t r w h k = (
  calculate_total_packets_huge (length t.encrypted_file) w h k,
  send_packets_stop lib t (length t.encrypted_file) (first_packet t) r w
      (to_int-not_positive _ h k),
)
