-- ===== src/Request/Fields.antt =====
-- Client/request.cpp: what the operations on numbers store, under the laws of Boost.Endian.
use secure_file_transfer_sys.Base.{ℕ, ◌%◌, ◌^◌, ◌≡◌, ap, ◌∙◌, arith, ◌++◌}
use secure_file_transfer_sys.Base.Int.{pos, to_u16, to_u32, to_int, to_u32-to_int}
use secure_file_transfer_sys.Library.{Library, BoostLaws}
use secure_file_transfer_sys.Request.{
  Request, set_code, set_payload_size, append_number_payload, number_content,
}
use secure_file_transfer_sys.Wire.{u16_bytes, u32_bytes}

pub u16_bytes-mod : (x : ℕ) → u16_bytes (x % 2 ^ 16) ≡ u16_bytes x
u16_bytes-mod x = ground arith

pub u32_bytes-mod : (x : ℕ) → u32_bytes (x % 2 ^ 32) ≡ u32_bytes x
u32_bytes-mod x = ground arith

module _ (lib : Library) (laws : BoostLaws lib) where
  pub store_u16-pos : (x : ℕ) → lib.store_little_u16 (to_u16 (pos x)) ≡ u16_bytes x
  unfolding to_u16
  store_u16-pos x = laws.store_u16 (x % 2 ^ 16) ∙ u16_bytes-mod x

  pub store_u32-pos : (x : ℕ) → lib.store_little_u32 (to_u32 (pos x)) ≡ u32_bytes x
  unfolding to_u32
  store_u32-pos x = laws.store_u32 (x % 2 ^ 32) ∙ u32_bytes-mod x

  pub store_u32-to_int : (x : ℕ) → lib.store_little_u32 (to_u32 (to_int x)) ≡ u32_bytes x
  store_u32-to_int x =
      ap lib.store_little_u32 (to_u32-to_int x) ∙ laws.store_u32 (x % 2 ^ 32) ∙ u32_bytes-mod x

  pub set_code_lem :
      (x : ℕ) (r : Request) → set_code lib (pos x) r ≡ record r { code = u16_bytes x }
  unfolding set_code
  set_code_lem x r = ap (λ b. record r { code = b }) (store_u16-pos x)

  pub set_payload_size_lem :
      (x : ℕ) (r : Request)
      → set_payload_size lib (pos x) r ≡ record r { payload_size = u32_bytes x }
  unfolding set_payload_size
  set_payload_size_lem x r = ap (λ b. record r { payload_size = b }) (store_u32-pos x)

  pub append_u16 :
      (x : ℕ) (r : Request)
      → append_number_payload lib (pos x) 2 r ≡ record r { payload = r.payload ++ u16_bytes x }
  unfolding append_number_payload number_content
  append_u16 x r = ap (λ b. record r { payload = r.payload ++ b }) (store_u16-pos x)

  pub append_size :
      (x : ℕ) (r : Request)
      → append_number_payload lib (to_int x) 4 r ≡ record r { payload = r.payload ++ u32_bytes x }
  unfolding append_number_payload number_content
  append_size x r = ap (λ b. record r { payload = r.payload ++ b }) (store_u32-to_int x)
