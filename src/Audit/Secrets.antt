-- ===== src/Audit/Secrets.antt =====
-- Which headers an audit record never holds.
use gateway_service.Prelude.{
  ◌≡◌, refl, Bool, true, false, List, [], ◌∷◌, Bool-cases, inl, inr, ◌∙◌, All,
}
use gateway_service.Text.{Str, lit, eqb}
use gateway_service.Text.Laws.{eqb_iff}
use gateway_service.Header.{Header, canonical_header_key, values, put}
use gateway_service.Header.Laws.{values-put}
use gateway_service.Audit.{
  sanitize_from, sanitized_headers, sanitized_request_headers, sanitized_response_headers,
  should_drop_audit_request_header, should_drop_audit_response_header,
}

sanitize_from-nil :
    (drop : Str → Bool) (kept headers : Header) (j : Str)
    → drop j ≡ true
    → values kept j ≡ []
    → values (sanitize_from drop kept headers) j ≡ []
unfolding sanitize_from
sanitize_from-nil drop kept [] j d h = h
sanitize_from-nil drop kept ((key, vs) ∷ headers) j d h =
    elim (Bool-cases (drop (canonical_header_key key))) [
      | inl e ↦ rw e (sanitize_from-nil drop kept headers j d h)
      | inr e ↦ rw e (
          sanitize_from-nil drop (put kept (canonical_header_key key) vs) headers j d
            (other (canonical_header_key key) e))
    ]
  where
    other : (name : Str) → drop name ≡ false → values (put kept name vs) j ≡ []
    other name e = elim (Bool-cases (eqb name j)) [
      | inl same ↦ let eq : name ≡ j = (eqb_iff name j).0 same in cc
      | inr differs ↦ values-put kept name j vs ∙ rw differs h
    ]

abbrev pub secret_request_headers : List Str
secret_request_headers =
    lit "Authorization"
    ∷ lit "Cookie"
    ∷ lit "Proxy-Authorization"
    ∷ lit "X-Internal-Token"
    ∷ lit "X-User-Id"
    ∷ lit "Apikey"
    ∷ lit "Api-Key"
    ∷ lit "X-Api-Key"
    ∷ []

-- Whatever headers a request has, in whatever spelling, its audit record has no value for any of the
-- headers that carry credentials.
pub sanitized_request_headers_secret :
    (headers : Header)
    → All (λ name. values (sanitized_request_headers headers) name ≡ []) secret_request_headers
unfolding sanitized_request_headers sanitized_headers should_drop_audit_request_header eqb
    canonical_header_key values
sanitized_request_headers_secret headers = (
  gone (lit "Authorization") refl,
  (
    gone (lit "Cookie") refl,
    (
      gone (lit "Proxy-Authorization") refl,
      (
        gone (lit "X-Internal-Token") refl,
        (
          gone (lit "X-User-Id") refl,
          (
            gone (lit "Apikey") refl,
            (gone (lit "Api-Key") refl, (gone (lit "X-Api-Key") refl, tt)),
          ),
        ),
      ),
    ),
  ),
)
  where
    gone :
        (j : Str)
        → should_drop_audit_request_header j ≡ true
        → values (sanitize_from should_drop_audit_request_header [] headers) j ≡ []
    gone j d = sanitize_from-nil should_drop_audit_request_header [] headers j d refl

-- The record of a response has no value for Set-Cookie, Authorization or the internal token.
pub sanitized_response_headers_secret :
    (headers : Header)
    → All
        (λ name. values (sanitized_response_headers headers) name ≡ [])
        (lit "Set-Cookie" ∷ lit "Authorization" ∷ lit "X-Internal-Token" ∷ [])
unfolding sanitized_response_headers sanitized_headers should_drop_audit_response_header eqb
    canonical_header_key values
sanitized_response_headers_secret headers = (
  gone (lit "Set-Cookie") refl,
  (gone (lit "Authorization") refl, (gone (lit "X-Internal-Token") refl, tt)),
)
  where
    gone :
        (j : Str)
        → should_drop_audit_response_header j ≡ true
        → values (sanitize_from should_drop_audit_response_header [] headers) j ≡ []
    gone j d = sanitize_from-nil should_drop_audit_response_header [] headers j d refl
