-- ===== src/Session/Packets.antt =====
-- Client/client.cpp: the loop of `send_file` that cuts the encrypted file into packets.
pub mod Pieces
pub mod Fill
pub mod Loop
pub mod Moves
use secure_file_transfer_sys.Base.{
  ℕ, zero, suc, ◌+◌, ◌^◌, Bool, true, false, ◌&&◌, Option, none, some, ltb, if◌then◌else◌, length,
}
use secure_file_transfer_sys.Base.Int.{ℤ, pos, pos_part, to_int, ◌+ℤ◌, ◌-ℤ◌, ltb_ℤ}
use secure_file_transfer_sys.Global.{
  content_size_size, orig_file_size_size, packet_number_size, total_packets_size, file_name_size,
  name_of_client_size, packet_max_size,
}
use secure_file_transfer_sys.Runtime.{Bytes, Run, ◌>>=◌, ◌>>◌, pure, defined, out_of_fuel}
use secure_file_transfer_sys.Library.{Library}
use secure_file_transfer_sys.Request.{
  Request, set_payload_size, append_number_payload, append_string_payload, append_file_slice,
  send_to_server, clear_payload,
}

abbrev pub payload_size_without_massage : ℕ
payload_size_without_massage =
    content_size_size + orig_file_size_size + packet_number_size + total_packets_size
    + file_name_size

-- The variables of `send_file` that the loop does not change.
pub record Transfer : Type 0 where
  pub encrypted_file : Bytes
  pub original_size : ℕ
  pub file_name : Bytes
  pub total_packets : ℤ

-- The variables that it changes, beside the request. `packet_number`, `begin` and `end` start at 1,
-- 0 and 4096 and only grow; the counter may fall below 0. All four are `int`s, and a sum that is too
-- large for an `int` is undefined.
pub record Cursor : Type 0 where
  pub packet_number : ℕ
  pub begin : ℕ
  pub end : ℕ
  pub counter : ℤ

abbrev pub fits_int : ℕ → Bool
fits_int n = ltb n (2 ^ 31)

unfoldable pub advance : Cursor → Option Cursor
advance c =
    let next : Cursor = record {
      packet_number = c.packet_number + 1;
      begin = c.begin + packet_max_size;
      end = c.end + packet_max_size;
      counter = c.counter -ℤ pos packet_max_size;
    } in
    if fits_int next.packet_number && (fits_int next.begin && fits_int next.end)
    then some next
    else none

module _ (lib : Library) where
  -- The body of the loop, up to the call that sends: what the request then holds. The sums are `int`s.
  unfoldable pub fill_packet : Transfer → Cursor → Request → Option Request
  fill_packet t c r =
      let last = set_payload_size lib (pos payload_size_without_massage +ℤ c.counter) r in
      let full =
        set_payload_size lib (pos payload_size_without_massage +ℤ pos packet_max_size) last in
      let sized = if ltb_ℤ (pos packet_max_size) c.counter then full else last in
      let size_field =
        append_number_payload lib (to_int (length t.encrypted_file)) content_size_size sized in
      let orig_field =
        append_number_payload lib (to_int t.original_size) orig_file_size_size size_field in
      let number_field =
        append_number_payload lib (pos c.packet_number) packet_number_size orig_field in
      let total_field = append_number_payload lib t.total_packets total_packets_size number_field in
      let named = append_string_payload t.file_name name_of_client_size total_field in
      let end_of_file = c.begin + pos_part c.counter in
      let with_slice =
        if ltb_ℤ (pos packet_max_size) c.counter
        then append_file_slice t.encrypted_file c.begin c.end named
        else if fits_int end_of_file
        then append_file_slice t.encrypted_file c.begin end_of_file named
        else none in
      if fits_int (payload_size_without_massage + pos_part c.counter) then with_slice else none

  -- `while (encrypted_file_size_counter > 0)`
  unfoldable pub send_packets : ℕ → Transfer → Cursor → Request → Run Request
  send_packets zero t c r = out_of_fuel
  send_packets (suc fuel) t c r =
      let round = (do
        filled ← defined (fill_packet t c r)
        send_to_server filled
        next ← defined (advance c)
        send_packets fuel t next (clear_payload filled)) in
      if ltb_ℤ (pos 0) c.counter then round else pure r
