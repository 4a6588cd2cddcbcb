-- ===== src/Proxy/Headers.antt =====
-- The headers that the proxy sends upstream and back to the client.
use gateway_service.Prelude.{ℕ, ◌≡◌, refl, true, false, List, [], ◌∷◌, ◌++◌, ◌∙◌, append-nil, ap}
use gateway_service.Text.{Str, lit, eqb}
use gateway_service.Header.{
  Header, canonical_header_key, values, set, copy_forward_headers, copy_response_headers,
  should_drop_request_header, should_drop_response_header, internal_token_header, user_id_header,
  request_id_header, request_accepted_at_header,
}
use gateway_service.Header.Laws.{values-set, values-copy_headers, kept-nil}
use gateway_service.Http.{Request}
use gateway_service.Route.{Route}
use gateway_service.World.{Platform, Server}
use gateway_service.Proxy.{outgoing, set_forwarded_headers, forwarded_for, request_id_from_context}

-- Setting a header leaves another one alone, and leaves one value under its own name.
values-set_ne :
    (h : Header) (key j value : Str)
    → eqb (canonical_header_key key) j ≡ false
    → values (set h key value) j ≡ values h j
values-set_ne h key j value e = rw (values-set, e)

values-set_self :
    (h : Header) (key j value : Str)
    → eqb (canonical_header_key key) j ≡ true
    → values (set h key value) j ≡ value ∷ []
values-set_self h key j value e = rw (values-set, e)

-- A header that the request filter drops is absent from the copy.
forward-nil :
    (src : Header) (j : Str)
    → ((key : Str) → canonical_header_key key ≡ j → should_drop_request_header key ≡ true)
    → values (copy_forward_headers [] src) j ≡ []
unfolding copy_forward_headers values
forward-nil src j h =
    values-copy_headers should_drop_request_header [] src j
    ∙ kept-nil should_drop_request_header src j h

drops_authorization :
    (key : Str)
    → canonical_header_key key ≡ lit "Authorization"
    → should_drop_request_header key ≡ true
unfolding should_drop_request_header eqb
drops_authorization key e = rw e

drops_cookie :
    (key : Str) → canonical_header_key key ≡ lit "Cookie" → should_drop_request_header key ≡ true
unfolding should_drop_request_header eqb
drops_cookie key e = rw e

drops_proxy_authorization :
    (key : Str)
    → canonical_header_key key ≡ lit "Proxy-Authorization"
    → should_drop_request_header key ≡ true
unfolding should_drop_request_header eqb
drops_proxy_authorization key e = rw e

drops_set_cookie :
    (key : Str)
    → canonical_header_key key ≡ lit "Set-Cookie"
    → should_drop_response_header key ≡ true
unfolding should_drop_response_header eqb
drops_set_cookie key e = rw e

-- Neither X-Forwarded-For, X-Forwarded-Host nor X-Forwarded-Proto.
abbrev pub IsNotForwarded : Str → Type 0
IsNotForwarded j =
    (eqb (canonical_header_key (lit "X-Forwarded-For")) j ≡ false)
    × (eqb (canonical_header_key (lit "X-Forwarded-Host")) j ≡ false)
    × (eqb (canonical_header_key (lit "X-Forwarded-Proto")) j ≡ false)

values-forwarded_for :
    (given remote : Str) (h : Header) (j : Str)
    → eqb (canonical_header_key (lit "X-Forwarded-For")) j ≡ false
    → values (forwarded_for given remote h) j ≡ values h j
unfolding forwarded_for
values-forwarded_for [] [] h j e = refl
values-forwarded_for [] (c ∷ remote) h j e =
    values-set_ne h (lit "X-Forwarded-For") j (c ∷ remote) e
values-forwarded_for (c ∷ given) [] h j e = values-set_ne h (lit "X-Forwarded-For") j (c ∷ given) e
values-forwarded_for (c ∷ given) (d ∷ remote) h j e = values-set_ne h (lit "X-Forwarded-For") j _ e

values-set_forwarded_headers :
    (p : Platform) (src : Request) (h : Header) (j : Str)
    → IsNotForwarded j
    → values (set_forwarded_headers p src h) j ≡ values h j
unfolding set_forwarded_headers
values-set_forwarded_headers p src h j (e, f, g) =
    values-set_ne _ (lit "X-Forwarded-Proto") j _ g
    ∙ values-set_ne _ (lit "X-Forwarded-Host") j _ f
    ∙ values-forwarded_for _ _ h j e

module _ (p : Platform) (s : Server) (r : Request) (body : Str) (route : Route)
    (user accepted_at : ℕ) where
  -- A header that the filter drops, that the gateway does not set, is absent upstream.
  absent :
      (j : Str)
      → IsNotForwarded j
      → (eqb (canonical_header_key internal_token_header) j ≡ false)
        × (eqb (canonical_header_key user_id_header) j ≡ false)
        × (eqb (canonical_header_key request_id_header) j ≡ false)
        × (eqb (canonical_header_key request_accepted_at_header) j ≡ false)
      → ((key : Str) → canonical_header_key key ≡ j → should_drop_request_header key ≡ true)
      → values (outgoing p s r body route user accepted_at).header j ≡ []
  unfolding outgoing
  absent j n (a, b, c, d) drops =
      values-set_forwarded_headers p r _ j n
      ∙ values-set_ne _ request_accepted_at_header j _ d
      ∙ values-set_ne _ request_id_header j _ c
      ∙ values-set_ne _ user_id_header j _ b
      ∙ values-set_ne _ internal_token_header j _ a
      ∙ forward-nil r.header j drops

  -- Whatever headers the client sends under these names, in whatever spelling, the upstream sees one
  -- value each: the internal token, the id of the verified user, the request id of the context and the
  -- gateway's own time of acceptance.
  pub outgoing_trusted :
      (values (outgoing p s r body route user accepted_at).header internal_token_header
        ≡ s.internal_token ∷ [])
      × (values (outgoing p s r body route user accepted_at).header user_id_header
          ≡ p.uuid_string user ∷ [])
      × (values (outgoing p s r body route user accepted_at).header request_id_header
          ≡ request_id_from_context r ∷ [])
      × (values (outgoing p s r body route user accepted_at).header request_accepted_at_header
          ≡ p.rfc3339_nano accepted_at ∷ [])
  unfolding outgoing canonical_header_key eqb
  outgoing_trusted = (
    values-set_forwarded_headers p r _ internal_token_header (refl, refl, refl)
        ∙ values-set_ne _ request_accepted_at_header internal_token_header _ refl
        ∙ values-set_ne _ request_id_header internal_token_header _ refl
        ∙ values-set_ne _ user_id_header internal_token_header _ refl
        ∙ values-set_self _ internal_token_header internal_token_header _ refl,
    values-set_forwarded_headers p r _ user_id_header (refl, refl, refl)
        ∙ values-set_ne _ request_accepted_at_header user_id_header _ refl
        ∙ values-set_ne _ request_id_header user_id_header _ refl
        ∙ values-set_self _ user_id_header user_id_header _ refl,
    values-set_forwarded_headers p r _ request_id_header (refl, refl, refl)
        ∙ values-set_ne _ request_accepted_at_header request_id_header _ refl
        ∙ values-set_self _ request_id_header request_id_header _ refl,
    values-set_forwarded_headers p r _ request_accepted_at_header (refl, refl, refl)
        ∙ values-set_self _ request_accepted_at_header request_accepted_at_header _ refl,
  )

  -- The client's credentials never reach the upstream: it sees no Authorization, Cookie or
  -- Proxy-Authorization header.
  pub outgoing_no_credentials :
      (values (outgoing p s r body route user accepted_at).header (lit "Authorization") ≡ [])
      × (values (outgoing p s r body route user accepted_at).header (lit "Cookie") ≡ [])
      × (values (outgoing p s r body route user accepted_at).header (lit "Proxy-Authorization")
          ≡ [])
  unfolding should_drop_request_header canonical_header_key eqb
  outgoing_no_credentials = (
    absent (lit "Authorization") (refl, refl, refl) (refl, refl, refl, refl)
        (λ key e. drops_authorization key e),
    absent (lit "Cookie") (refl, refl, refl) (refl, refl, refl, refl) (λ key e. drops_cookie key e),
    absent (lit "Proxy-Authorization") (refl, refl, refl) (refl, refl, refl, refl)
        (λ key e. drops_proxy_authorization key e),
  )

-- Of the upstream's headers the client never sees Set-Cookie: its values under that name stay those
-- that the gateway wrote itself.
pub copy_response_headers_no_cookie :
    (dst src : Header)
    → values (copy_response_headers dst src) (lit "Set-Cookie") ≡ values dst (lit "Set-Cookie")
unfolding copy_response_headers
copy_response_headers_no_cookie dst src =
    values-copy_headers should_drop_response_header dst src (lit "Set-Cookie")
    ∙ ap (λ (vs : List Str). values dst (lit "Set-Cookie") ++ vs)
        (kept-nil should_drop_response_header src (lit "Set-Cookie") drops_set_cookie)
    ∙ append-nil (values dst (lit "Set-Cookie"))
