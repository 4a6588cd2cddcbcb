-- ===== src/Audit/Bodies.antt =====
-- What an audit record keeps of a body, and of the client's request id.
use gateway_service.Prelude.{
  ℕ, ◌≤◌, ◌<◌, ◌≡◌, refl, Bool, true, false, [], ◌∷◌, arith, Option, none, ltb, length, take,
  length-take, ◌||◌,
}
use gateway_service.Text.{Str, trim_space}
use gateway_service.Text.Encoding.{utf8_valid, base64_encode}
use gateway_service.Text.Encoding.Valid.{length-to_valid_utf8}
use gateway_service.Header.{Header, get, request_id_header}
use gateway_service.Audit.{
  AuditBody, BodyEncoding, new_audit_body, bounded, audit_body_sized, audit_body_from_bytes,
  client_request_id, max_client_request_id_length,
}

-- What a record says of the bytes that it keeps: they stand as text if they are UTF-8 and in base64 if
-- not, and JSON is read from untruncated bodies only.
pub record Keeps (kept : Str) (size : ℕ) (truncated : Bool) (b : AuditBody) : Type 0 where
  pub sized : b.size ≡ size
  pub marked : b.truncated ≡ truncated
  pub as_text :
      utf8_valid kept ≡ true → (b.text ≡ kept) × (b.base64 ≡ []) × (b.encoding ≡ BodyEncoding.utf8)
  pub as_base64 :
      utf8_valid kept ≡ false
      → (b.text ≡ []) × (b.base64 ≡ base64_encode kept) × (b.encoding ≡ BodyEncoding.base64)
  pub whole_json : truncated ≡ true → b.json ≡ none

module _ (normalize : Str → Option Str) where
  new_audit_body-Keeps :
      (body content_type : Str) (truncated : Bool) (size : ℕ)
      → Keeps body size truncated (new_audit_body normalize body content_type truncated size)
  unfolding new_audit_body utf8_valid
  new_audit_body-Keeps [] content_type truncated size = record {
    sized = refl;
    marked = refl;
    as_text = λ _. (refl, refl, refl);
    as_base64 = λ e. cc;
    whole_json = λ _. refl;
  }
  new_audit_body-Keeps (c ∷ body) content_type truncated size = record {
    sized = ground arith;
    marked = ground arith;
    as_text = λ e. ground arith;
    as_base64 = λ e. ground arith;
    whole_json = λ e. ground arith;
  }

  -- A body is kept up to the limit, with its true size, and it is marked truncated exactly when it is
  -- longer than the limit.
  pub audit_body_from_bytes-Keeps :
      (body content_type : Str) (max_bytes : ℕ)
      → Keeps
          (take max_bytes body)
          (length body)
          (ltb max_bytes (length body))
          (audit_body_from_bytes normalize body content_type max_bytes)
  unfolding audit_body_from_bytes audit_body_sized
  audit_body_from_bytes-Keeps body content_type max_bytes =
      rw (same_mark max_bytes body)
        (new_audit_body-Keeps (take max_bytes body) content_type _ (length body))
    where
      same_mark :
          (max_bytes : ℕ) (body : Str)
          → (ltb max_bytes (length body) || ltb (length (take max_bytes body)) (length body))
            ≡ ltb max_bytes (length body)
      same_mark max_bytes body = ground (arith, length-take max_bytes body)

  -- A body that was cut before it is recorded is marked truncated and keeps its original size,
  -- whatever the limit of the records.
  pub audit_body_sized-Keeps :
      (body content_type : Str) (max_bytes original_size : ℕ)
      → length body < original_size
      → Keeps
          (take max_bytes body)
          original_size
          true
          (audit_body_sized normalize body content_type max_bytes original_size)
  unfolding audit_body_sized
  audit_body_sized-Keeps body content_type max_bytes original_size cut =
      rw (marked_cut max_bytes body cut)
        (new_audit_body-Keeps (take max_bytes body) content_type _ original_size)
    where
      marked_cut :
          (max_bytes : ℕ) (body : Str)
          → length body < original_size
          → (ltb max_bytes (length body) || ltb (length (take max_bytes body)) original_size) ≡ true
      marked_cut max_bytes body cut = ground (arith, length-take max_bytes body)

length-bounded : (max : ℕ) (id : Str) → length (bounded max id) ≤ max
unfolding bounded
length-bounded max id = ground (arith, length-take max id, length-to_valid_utf8 (take max id))

bounded_short : (max : ℕ) (id : Str) → length id ≤ max → bounded max id ≡ id
unfolding bounded
bounded_short max id h = ground arith

-- The client's request id never has more than 128 bytes, and an id within that bound is kept as it
-- is, valid UTF-8 or not.
pub client_request_id_bounded :
    (h : Header)
    → (length (client_request_id h) ≤ max_client_request_id_length)
      × (length (trim_space (get h request_id_header)) ≤ max_client_request_id_length
          → client_request_id h ≡ trim_space (get h request_id_header))
unfolding client_request_id
client_request_id_bounded h = (
  length-bounded max_client_request_id_length (trim_space (get h request_id_header)),
  bounded_short max_client_request_id_length (trim_space (get h request_id_header)),
)
