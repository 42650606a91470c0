-- ===== src/Session/Packets/Loop.antt =====
-- Client/client.cpp: the whole packet loop, against a description of a file cut into pieces.
use secure_file_transfer_sys.Session.Packets.Moves.{next_cursor, advance_lem, next_full, next_last}
use native.Mathlib.Decide.{dec_le}
use secure_file_transfer_sys.Base.{
  ℕ, zero, suc, ◌+◌, ◌-◌, ◌*◌, ◌≤◌, ◌<◌, ◌≡◌, refl, sym, ap, ◌∙◌, arith, none, some, List, [], ◌∷◌,
  ◌++◌, append_assoc, append-nil, length, true, false, length-drop, length-append, length-replicate,
  replicate, drop, drop-ge, drop-drop,
}
use secure_file_transfer_sys.Base.Int.{pos, ltb_ℤ}
use secure_file_transfer_sys.Runtime.{Bytes, World, Outcome, done, socket_write}
use secure_file_transfer_sys.Library.{Library, BoostLaws}
use secure_file_transfer_sys.Request.{Request, message, send_to_server, clear_payload}
use secure_file_transfer_sys.Request.Layout.{IsShaped, message_lem, clear_payload-IsShaped}
use secure_file_transfer_sys.Wire.{u16_bytes, u32_bytes, request_bytes, text_field, packet_payload}
use secure_file_transfer_sys.Session.Packets.{Transfer, Cursor, advance, fill_packet, send_packets}
use secure_file_transfer_sys.Session.Packets.Pieces.{pieces, pieces-suc}
use secure_file_transfer_sys.Session.Packets.Fill.{
  chunk_at, packet_request, cursor, fill_packet_lem,
}

-- No write throws.
abbrev pub Writes : World → Type 0
Writes w = (k : ℕ) → w.breaks k ≡ none

abbrev pub sending : World → List Bytes → World
sending w messages = record w { outbox = w.outbox ++ messages }

pub send_to_server_lem :
    (r : Request) (w : World)
    → Writes w
    → send_to_server r w ≡ (done tt, sending w (message r ∷ []))
unfolding send_to_server socket_write
send_to_server_lem r w h = rw (h (length w.outbox), socket_write) refl

-- The packets that carry some pieces, numbered from `number` on.
abbrev pub packets : Bytes → Transfer → ℕ → ℕ → List Bytes → List Bytes
packets id t total number [] = []
packets id t total number (c ∷ r) =
    request_bytes id 828
      (packet_payload (length t.encrypted_file) t.original_size number total t.file_name c)
    ∷ packets id t total (number + 1) r

module _ (lib : Library) (t : Transfer) where
  pub send_packets_stop :
      (fuel : ℕ) (c : Cursor) (r : Request) (w : World)
      → ltb_ℤ (pos 0) c.counter ≡ false
      → send_packets lib (suc fuel) t c r w ≡ (done r, w)
  unfolding send_packets
  send_packets_stop fuel c r w h = rw h

  send_packets_step :
      (fuel number begin left : ℕ) (r : Request) (filled : Request) (w : World)
      → 0 < left
      → fill_packet lib t (cursor number begin left) r ≡ some filled
      → advance (cursor number begin left) ≡ some (next_cursor number begin left)
      → Writes w
      → send_packets lib (suc fuel) t (cursor number begin left) r w
        ≡ send_packets lib fuel t
            (next_cursor number begin left)
            (clear_payload filled)
            (sending w (message filled ∷ []))
  unfolding send_packets
  send_packets_step fuel number begin left r filled w h e moves writes =
      rw (e, positive, send_to_server_lem filled w writes, moves) refl
    where
      positive : ltb_ℤ (pos 0) (pos left) ≡ true
      positive = ground arith

module _ (lib : Library) (laws : BoostLaws lib) (t : Transfer) (total : ℕ)
    (is_total : t.total_packets ≡ pos total) (name_fits : length t.file_name ≤ 255)
    (fits : length t.encrypted_file ≤ 4096 * 65535) where
  payload-size :
      (number : ℕ) (content : Bytes)
      → 267 + length content
        ≡ length (
            packet_payload
              (length t.encrypted_file)
              t.original_size
              number
              total
              t.file_name
              content)
  payload-size number content = omega (
    arith,
    length-append (text_field t.file_name) content,
    length-append t.file_name (replicate (255 - length t.file_name) 0),
    length-replicate {A = ℕ} (255 - length t.file_name) 0,
  )

  packet_request-IsShaped :
      (number begin : ℕ) (r : Request)
      → IsShaped r
      → IsShaped (packet_request t total number (chunk_at t begin) r)
  packet_request-IsShaped number begin r s = record {
    id_size = s.id_size;
    is_version = s.is_version;
    code_size = s.code_size;
    size_size = refl;
  }

  message-packet_request :
      (number begin : ℕ) (r : Request)
      → IsShaped r
      → r.code ≡ u16_bytes 828
      → r.payload ≡ []
      → message (packet_request t total number (chunk_at t begin) r)
        ≡ request_bytes r.client_id 828 (
            packet_payload
              (length t.encrypted_file)
              t.original_size
              number
              total
              t.file_name
              (chunk_at t begin))
  message-packet_request number begin r s code empty =
      message_lem _ (packet_request-IsShaped number begin r s)
      ∙ rw (code, empty)
          (ap
            (λ n.
              r.client_id
              ++ (3
                  ∷ (u16_bytes 828
                      ++ (u32_bytes n
                          ++ packet_payload (length t.encrypted_file) t.original_size number total
                              t.file_name (chunk_at t begin)))))
            (payload-size number (chunk_at t begin)))

  -- The pieces from `begin` on have been sent, and the request is as it was but for its payload.
  abbrev pub Sent : ℕ → ℕ → ℕ → Request → World → Outcome Request × World → Type 0
  Sent fuel number begin r w result =
      (size : Bytes) × (length size ≡ 4)
      × (result ≡ (
        done (record r { payload_size = size; payload = [] }),
        sending w (packets r.client_id t total number (pieces fuel (drop begin t.encrypted_file))),
      ))

  pieces-nil : (fuel : ℕ) → pieces fuel [] ≡ []
  pieces-nil zero = unfold pieces in refl
  pieces-nil (suc fuel) = unfold pieces in refl

  nothing_left :
      (fuel number begin : ℕ) (c : Cursor) (r : Request) (w : World)
      → ltb_ℤ (pos 0) c.counter ≡ false
      → drop begin t.encrypted_file ≡ []
      → IsShaped r
      → r.payload ≡ []
      → Sent (suc fuel) number begin r w (send_packets lib (suc fuel) t c r w)
  nothing_left fuel number begin c r w stop finished s empty = (
    r.payload_size,
    s.size_size,
    send_packets_stop lib t fuel c r w stop
        ∙ rw (finished, pieces-nil (suc fuel))
            (ap (λ p. (done (record r { payload = p }), w)) empty
              ∙ ap (λ o. (done (record r { payload = [] }), record w { outbox = o }))
                  (sym (append-nil w.outbox))),
  )

  one_more :
      (fuel number begin left : ℕ) (r : Request) (w : World)
      → 0 < left
      → number ≤ begin + 1
      → begin + left ≡ length t.encrypted_file
      → IsShaped r
      → r.code ≡ u16_bytes 828
      → r.payload ≡ []
      → Writes w
      → Sent fuel
          (number + 1)
          (begin + 4096)
          (clear_payload (packet_request t total number (chunk_at t begin) r))
          (sending w (message (packet_request t total number (chunk_at t begin) r) ∷ []))
          (send_packets lib fuel t
            (next_cursor number begin left)
            (clear_payload (packet_request t total number (chunk_at t begin) r))
            (sending w (message (packet_request t total number (chunk_at t begin) r) ∷ [])))
      → Sent
          (suc fuel)
          number
          begin
          r
          w
          (send_packets lib (suc fuel) t (cursor number begin left) r w)
  unfolding clear_payload
  one_more fuel number begin left r w more early size s code empty writes (field, field_size, e) = (
    field,
    field_size,
    send_packets_step lib t fuel number begin left r _ w more
          (fill_packet_lem lib laws t total fits number begin left r is_total size)
          (advance_lem number begin left early (omega (arith, fits, size))) writes
        ∙ e
        ∙ ap
            (λ o. (done (record r { payload_size = field; payload = [] }), record w { outbox = o }))
            (append_assoc w.outbox _ _ ∙ ap (λ l. w.outbox ++ l) same),
  )
    where
      same :
          message (packet_request t total number (chunk_at t begin) r)
            ∷ packets r.client_id t total
                (number + 1)
                (pieces fuel (drop (begin + 4096) t.encrypted_file))
          ≡ packets r.client_id t total number (pieces (suc fuel) (drop begin t.encrypted_file))
      same =
          rw
            (
              pieces-suc fuel (drop begin t.encrypted_file)
                  (omega (arith, length-drop begin t.encrypted_file)),
              drop-drop begin 4096 t.encrypted_file,
              message-packet_request number begin r s code empty,
            )
            refl

  pub send_packets-pieces :
      (fuel number begin left : ℕ) (r : Request) (w : World)
      → left < fuel
      → number ≤ begin + 1
      → begin + left ≡ length t.encrypted_file
      → IsShaped r
      → r.code ≡ u16_bytes 828
      → r.payload ≡ []
      → Writes w
      → Sent fuel number begin r w (send_packets lib fuel t (cursor number begin left) r w)
  send_packets-pieces zero number begin left r w h early size s code empty writes =
      absurd (omega arith)
  send_packets-pieces (suc fuel) number begin zero r w h early size s code empty writes =
      nothing_left fuel number begin (cursor number begin 0) r w refl
        (drop-ge begin t.encrypted_file (omega arith)) s empty
  send_packets-pieces (suc zero) number begin (suc left) r w h early size s code empty writes =
      absurd (omega arith)
  send_packets-pieces (suc (suc fuel)) number begin (suc left) r w h early size s code empty
        writes =
      one_more (suc fuel) number begin (suc left) r w (omega arith) early size s code empty writes
        (elim (dec_le (suc left) 4096) [
          | yes few ↦
              nothing_left fuel (number + 1) (begin + 4096) (next_cursor number begin (suc left)) _
                _ (next_last number begin (suc left) few)
                (drop-ge (begin + 4096) t.encrypted_file (omega arith))
                (clear_payload-IsShaped _ (packet_request-IsShaped number begin r s))
                (unfold clear_payload in refl)
          | no many ↦ rw (next_full number begin (suc left) (omega arith)) (
              send_packets-pieces (suc fuel) (number + 1) (begin + 4096) (suc left - 4096) _ _
                (omega arith) (omega arith) (omega arith)
                (clear_payload-IsShaped _ (packet_request-IsShaped number begin r s))
                (unfold clear_payload in code) (unfold clear_payload in refl) writes)
        ])
