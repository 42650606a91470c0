-- ===== src/Session/Packets/Fill.antt =====
-- Client/client.cpp: one round of the packet loop.
use native.Mathlib.Decide.{dec_le}
use secure_file_transfer_sys.Base.{
  ℕ, ◌+◌, ◌-◌, ◌*◌, ◌≤◌, ◌<◌, ◌≡◌, refl, sym, ap, ◌∙◌, arith, some, ◌++◌, append_assoc, length,
  true, false, length-take, length-drop, take, take-ge, drop,
}
use secure_file_transfer_sys.Base.Int.{ℤ, pos, ltb_ℤ, ◌+ℤ◌, to_int}
use secure_file_transfer_sys.Runtime.{Bytes}
use secure_file_transfer_sys.Library.{Library, BoostLaws}
use secure_file_transfer_sys.Request.{
  Request, append_file_slice, append_string_payload, append_number_payload, set_payload_size,
}
use secure_file_transfer_sys.Request.Layout.{append_file_slice_lem}
use secure_file_transfer_sys.Request.Fields.{set_payload_size_lem, append_u16, append_size}
use secure_file_transfer_sys.Wire.{u32_bytes, packet_payload}
use secure_file_transfer_sys.Session.Packets.{Transfer, Cursor, fits_int, fill_packet}

-- The part of the file that a packet carries.
abbrev pub chunk_at : Transfer → ℕ → Bytes
chunk_at t begin = take 4096 (drop begin t.encrypted_file)

-- The request as a packet.
abbrev pub packet_request : Transfer → ℕ → ℕ → Bytes → Request → Request
packet_request t total number content r = record r {
  payload_size = u32_bytes (267 + length content);
  payload =
      r.payload
      ++ packet_payload (length t.encrypted_file) t.original_size number total t.file_name content;
}

abbrev pub cursor : ℕ → ℕ → ℕ → Cursor
cursor number begin left = record {
  packet_number = number;
  begin = begin;
  end = begin + 4096;
  counter = pos left;
}

pos_sum : (a b : ℕ) → pos a +ℤ pos b ≡ pos (a + b)
unfolding ◌+ℤ◌
pos_sum a b = ground arith

module _ (lib : Library) (laws : BoostLaws lib) (t : Transfer) (total : ℕ)
    (fits : length t.encrypted_file ≤ 4096 * 65535) where
  -- The fields before the content.
  abbrev head_fields : ℕ → ℕ → Request → Request
  head_fields number size r = append_string_payload t.file_name 255 (
      append_number_payload lib (pos total) 2 (
        append_number_payload lib (pos number) 2 (
          append_number_payload lib (to_int t.original_size) 4 (
            append_number_payload lib (to_int (length t.encrypted_file)) 4
              (set_payload_size lib (pos size) r)))))

  with_content :
      (number begin end : ℕ) (r : Request)
      → begin ≤ end
      → end ≤ length t.encrypted_file
      → take (end - begin) (drop begin t.encrypted_file) ≡ chunk_at t begin
      → append_file_slice t.encrypted_file begin end
          (head_fields number (267 + length (chunk_at t begin)) r)
        ≡ some (packet_request t total number (chunk_at t begin) r)
  unfolding append_string_payload
  with_content number begin end r h k e =
      append_file_slice_lem t.encrypted_file begin end _ h k
      ∙ rw e (
          simp (
            set_payload_size_lem lib laws,
            append_u16 lib laws,
            append_size lib laws,
            append_assoc,
          ))

  abbrev sized : ℤ → Request → Request
  sized size r = set_payload_size lib size r

  sized_again : (a b : ℤ) (r : Request) → sized a (sized b r) ≡ sized a r
  unfolding set_payload_size
  sized_again a b r = refl

  -- A packet that is not the last one, and the last one.
  fill_full :
      (number begin left : ℕ) (r : Request)
      → t.total_packets ≡ pos total
      → 4096 < left
      → begin + left ≡ length t.encrypted_file
      → fill_packet lib t (cursor number begin left) r
        ≡ some (packet_request t total number (chunk_at t begin) r)
  unfolding fill_packet
  fill_full number begin left r e more h =
      rw (over, sum_fits, e, sized_again, size)
        (with_content number begin (begin + 4096) r (omega arith) (omega arith)
          (ap (λ n. take n (drop begin t.encrypted_file)) {y = 4096} (omega arith)))
    where
      over : ltb_ℤ (pos 4096) (pos left) ≡ true
      over = ground arith

      sum_fits : fits_int (267 + left) ≡ true
      sum_fits = ground (arith, fits)

      chunk_size : length (chunk_at t begin) ≡ 4096
      chunk_size = omega (
        arith,
        length-take 4096 (drop begin t.encrypted_file),
        length-drop begin t.encrypted_file,
      )

      size : pos 267 +ℤ pos 4096 ≡ pos (267 + length (chunk_at t begin))
      size = pos_sum 267 4096 ∙ ap pos (omega (arith, chunk_size))

  fill_last :
      (number begin left : ℕ) (r : Request)
      → t.total_packets ≡ pos total
      → left ≤ 4096
      → begin + left ≡ length t.encrypted_file
      → fill_packet lib t (cursor number begin left) r
        ≡ some (packet_request t total number (chunk_at t begin) r)
  unfolding fill_packet
  fill_last number begin left r e few h =
      rw (over, sum_fits, end_fits, e, size)
        (with_content number begin (begin + left) r (omega arith) (omega arith) same)
    where
      over : ltb_ℤ (pos 4096) (pos left) ≡ false
      over = ground arith

      sum_fits : fits_int (267 + left) ≡ true
      sum_fits = ground (arith, fits)

      end_fits : fits_int (begin + left) ≡ true
      end_fits = ground (arith, fits)

      drop_size : length (drop begin t.encrypted_file) ≡ left
      drop_size = omega (arith, length-drop begin t.encrypted_file)

      chunk_size : length (chunk_at t begin) ≡ left
      chunk_size = omega (arith, length-take 4096 (drop begin t.encrypted_file), drop_size)

      size : pos 267 +ℤ pos left ≡ pos (267 + length (chunk_at t begin))
      size = pos_sum 267 left ∙ ap pos (omega (arith, chunk_size))

      same : take (begin + left - begin) (drop begin t.encrypted_file) ≡ chunk_at t begin
      same =
          take-ge (begin + left - begin) (drop begin t.encrypted_file) (omega (arith, drop_size))
          ∙ sym (take-ge 4096 (drop begin t.encrypted_file) (omega (arith, drop_size)))

  pub fill_packet_lem :
      (number begin left : ℕ) (r : Request)
      → t.total_packets ≡ pos total
      → begin + left ≡ length t.encrypted_file
      → fill_packet lib t (cursor number begin left) r
        ≡ some (packet_request t total number (chunk_at t begin) r)
  fill_packet_lem number begin left r e h = elim (dec_le left 4096) [
    | yes few ↦ fill_last number begin left r e few h
    | no more ↦ fill_full number begin left r e (omega arith) h
  ]
