-- ===== src/Request/Layout.antt =====
-- Client/request.cpp: the fields keep their sizes, and a message is its fields one after the other.
use secure_file_transfer_sys.Base.{
  ℕ, zero, suc, ◌+◌, ◌-◌, ◌≤◌, ◌<◌, ◌≡◌, refl, ap, ◌∙◌, arith, some, List, [], ◌∷◌, ◌++◌, length,
  length-append, take, take-ge, drop, get_elem?,
}
use secure_file_transfer_sys.Runtime.{Bytes}
use secure_file_transfer_sys.Request.{
  Request, new_request, chars_from, set_client_id, append_file_slice, message, clear_payload,
}

-- The arrays of the class have these sizes.
pub record IsShaped (r : Request) : Type 0 where
  pub id_size : length r.client_id ≡ 16
  pub is_version : r.version_field ≡ 3 ∷ []
  pub code_size : length r.code ≡ 2
  pub size_size : length r.payload_size ≡ 4

pub new_request-IsShaped : IsShaped new_request
unfolding new_request
new_request-IsShaped = record {
  id_size = refl;
  is_version = refl;
  code_size = refl;
  size_size = refl;
}

drop_at :
    {A : Type 0} (s : List A) (i : ℕ)
    → i < length s
    → (x : A) × (get_elem? s i ≡ some x) × (drop i s ≡ x ∷ drop (i + 1) s)
drop_at [] i h = absurd (omega arith)
drop_at (x ∷ s) zero h = (x, refl, refl)
drop_at (x ∷ s) (suc i) h =
    let (y, e, f) = drop_at s i (omega arith) in (y, e, f ∙ ap (λ k. y ∷ drop k (x ∷ s)) (plus i))
  where
    plus : (k : ℕ) → suc (k + 1) ≡ suc k + 1
    plus k = omega arith

-- The loops over `s[i]` stay inside `s`, and copy the piece that they mean.
pub chars_from_lem :
    (n i : ℕ) (s : Bytes) → i + n ≤ length s → chars_from n i s ≡ some (take n (drop i s))
unfolding chars_from
chars_from_lem zero i s h = refl
chars_from_lem (suc n) i s h =
    let (x, e, f) = drop_at s i (omega arith) in
    ground (arith, e, f, chars_from_lem n (i + 1) s (omega arith))

-- An ID of 16 bytes is copied whole.
pub set_client_id_lem :
    (id : Bytes) (r : Request)
    → length id ≡ 16
    → set_client_id id r ≡ some (record r { client_id = id })
unfolding set_client_id
set_client_id_lem id r h =
    ground (arith, chars_from_lem 16 0 id (omega arith), take-ge 16 id (omega arith))

-- Where the two bounds are in order and inside the file, exactly the bytes between them are added to
-- the payload, and no access is out of bounds.
pub append_file_slice_lem :
    (file : Bytes) (begin end : ℕ) (r : Request)
    → begin ≤ end
    → end ≤ length file
    → append_file_slice file begin end r
      ≡ some (record r { payload = r.payload ++ take (end - begin) (drop begin file) })
unfolding append_file_slice
append_file_slice_lem file begin end r h k =
    ground (arith, chars_from_lem (end - begin) begin file (omega arith))

-- The length that is given to the write is that of the whole message.
pub message_lem :
    (r : Request)
    → IsShaped r
    → message r ≡ r.client_id ++ (3 ∷ (r.code ++ (r.payload_size ++ r.payload)))
unfolding message
message_lem r h =
    let tail = r.payload_size ++ r.payload in
    take-ge (23 + length r.payload) _ (
      omega (
        arith,
        length-append r.client_id (r.version_field ++ (r.code ++ tail)),
        length-append r.version_field (r.code ++ tail),
        length-append r.code tail,
        length-append r.payload_size r.payload,
        ap length h.is_version,
      ))
    ∙ ap (λ v. r.client_id ++ (v ++ (r.code ++ tail))) h.is_version

-- Clearing the payload keeps the header.
pub clear_payload-IsShaped : (r : Request) → IsShaped r → IsShaped (clear_payload r)
unfolding clear_payload
clear_payload-IsShaped r s = record {
  id_size = s.id_size;
  is_version = s.is_version;
  code_size = s.code_size;
  size_size = s.size_size;
}
