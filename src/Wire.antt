-- ===== src/Wire.antt =====
-- The layout of messages and answers on the wire, as the protocol states it: numbers with the least
-- significant byte first, texts padded with zeros. It does not mention the program.
use secure_file_transfer_sys.Base.{ℕ, ◌-◌, ◌/◌, ◌%◌, [], ◌∷◌, ◌++◌, length, replicate}
use secure_file_transfer_sys.Runtime.{Bytes}

abbrev pub u16_bytes : ℕ → Bytes
u16_bytes x = x % 256 ∷ x / 256 % 256 ∷ []

abbrev pub u32_bytes : ℕ → Bytes
u32_bytes x = x % 256 ∷ x / 256 % 256 ∷ x / 65536 % 256 ∷ x / 16777216 % 256 ∷ []

-- A text in a field of 255 bytes.
abbrev pub text_field : Bytes → Bytes
text_field text = text ++ replicate (255 - length text) 0

-- A request: the client's ID, version 3, the code, and the payload behind its size.
abbrev pub request_bytes : Bytes → ℕ → Bytes → Bytes
request_bytes id code payload =
    id ++ (3 ∷ (u16_bytes code ++ (u32_bytes (length payload) ++ payload)))

-- The payload of a packet of a file.
abbrev pub packet_payload : ℕ → ℕ → ℕ → ℕ → Bytes → Bytes → Bytes
packet_payload content_size orig_size number total name content =
    u32_bytes content_size
    ++ (u32_bytes orig_size
        ++ (u16_bytes number ++ (u16_bytes total ++ (text_field name ++ content))))
