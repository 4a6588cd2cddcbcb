-- ===== src/Verifier.antt =====
-- The verification of a session with Supabase: NewSupabaseVerifier and SupabaseVerifier.Verify of
-- internal/gateway/auth.go.
use gateway_service.Prelude.{
  ℕ, ◌≤◌, ◌<◌, ◌≡◌, refl, Bool, false, not, ◌||◌, Option, none, some, List, [], ◌∷◌, ◌++◌, ltb, leb,
  ◌==◌, if◌then◌else◌, is_empty, arith, Bool-cases, inl, inr,
}
use gateway_service.Text.{Str, lit, trim_space}
use gateway_service.Header.{Header, set}
use gateway_service.Route.{Url}
use gateway_service.Http.{Stream, Upstream}
use gateway_service.Json.{Json, Codec, Shape, Fields, Meaning, unmarshal_value}
use gateway_service.World.{Trace, Verified, AuthVerifier}

-- A GET of the user's URL.
pub record AuthRequest : Type 0 where
  pub url : Str
  pub header : Header

-- Its fields, and the packages that it calls: `first_value` is what a
-- json.Decoder finds first in a text.
pub record SupabaseVerifier : Type 0 where
  pub user_url : Str
  pub anon_key : Str
  pub client : Trace → AuthRequest → Option Upstream
  pub url_valid : Str → Bool
  pub json : Codec
  pub first_value : Stream → Option Json
  pub uuid_parse : Str → Option ℕ

-- The struct that Verify decodes an answer into.
abbrev id_type : Shape
id_type = Shape.struct (Fields.field (lit "id") false Shape.string Fields.end)

abbrev id_of : Option (Meaning id_type) → Option Str
id_of none = none
id_of (some body) = some body.0

module _ (v : SupabaseVerifier) where
  -- The `id` of an answer, or an error of its decoding
  pub decode_id : Stream → Option Str
  decode_id body = id_of (unmarshal_value v.json id_type (v.first_value body))

  pub auth_request : Str → AuthRequest
  auth_request token = record {
    url = v.user_url;
    header = set (set [] (lit "Authorization") (lit "Bearer " ++ token)) (lit "apikey") v.anon_key;
  }

  -- Verify behind uuid.Parse
  verify_parsed : Option ℕ → Verified
  verify_parsed none = Verified.invalid_session
  verify_parsed (some id) = Verified.user id

  -- Verify behind the decoding of the answer
  verify_decoded : Option Str → Verified
  verify_decoded none = Verified.auth_unavailable
  verify_decoded (some id) = verify_parsed (v.uuid_parse (trim_space id))

  -- Verify behind the client's answer
  verify_answered : Option Upstream → Verified
  verify_answered none = Verified.auth_unavailable
  verify_answered (some response) =
      if response.status == 401 || response.status == 403
      then Verified.invalid_session
      else if ltb response.status 200 || leb 300 response.status
      then Verified.auth_unavailable
      else verify_decoded (decode_id response.body)

  pub verify : AuthVerifier
  verify t token =
      if is_empty (trim_space token)
      then Verified.invalid_session
      else if not (v.url_valid v.user_url)
      then Verified.auth_unavailable
      else verify_answered (v.client t (auth_request (trim_space token)))

-- Packages that NewSupabaseVerifier and Verify call: `join_path` is url.JoinPath on the URL's text.
pub record VerifierPackages : Type 0 where
  pub url_parse : Str → Option Url
  pub join_path : Url → List Str → Option Str
  pub default_client : Trace → AuthRequest → Option Upstream
  pub url_valid : Str → Bool
  pub json : Codec
  pub first_value : Stream → Option Json
  pub uuid_parse : Str → Option ℕ

pub data VerifierError : Type 0 where
  unparsed not_absolute no_anon_key not_joined : VerifierError

pub data NewVerifier : Type 0 where
  failed : VerifierError → NewVerifier
  created : SupabaseVerifier → NewVerifier

module _ (k : VerifierPackages) (anon_key : Str)
    (client : Option (Trace → AuthRequest → Option Upstream)) where
  abbrev client_or_default :
      Option (Trace → AuthRequest → Option Upstream) → Trace → AuthRequest → Option Upstream
  client_or_default none = k.default_client
  client_or_default (some c) = c

  -- NewSupabaseVerifier behind url.JoinPath
  unfoldable pub verifier_joined : Option Str → NewVerifier
  verifier_joined none = failed VerifierError.not_joined
  verifier_joined (some user_url) = created (record {
    user_url = user_url;
    anon_key = trim_space anon_key;
    client = client_or_default client;
    url_valid = k.url_valid;
    json = k.json;
    first_value = k.first_value;
    uuid_parse = k.uuid_parse;
  })

  -- NewSupabaseVerifier behind url.Parse
  unfoldable pub verifier_based : Option Url → NewVerifier
  unfolding verifier_joined
  verifier_based none = failed VerifierError.unparsed
  verifier_based (some base) =
      if is_empty base.scheme || is_empty base.host
      then failed VerifierError.not_absolute
      else if is_empty (trim_space anon_key)
      then failed VerifierError.no_anon_key
      else verifier_joined (k.join_path base (lit "auth" ∷ lit "v1" ∷ lit "user" ∷ []))

  unfoldable pub new_supabase_verifier : Str → NewVerifier
  unfolding verifier_based
  new_supabase_verifier supabase_url = verifier_based (k.url_parse (trim_space supabase_url))

-- A result that meets a predicate, if it names a user.
abbrev pub Names : (ℕ → Type 0) → Verified → Type 0
Names P (Verified.user id) = P id
Names P Verified.invalid_session = Unit
Names P Verified.auth_unavailable = Unit

-- Supabase answered the token with success and a body that names the user.
pub record IsVouched (v : SupabaseVerifier) (t : Trace) (token : Str) (user : ℕ) : Type 0 where
  pub response : Upstream
  pub text : Str
  pub not_blank : is_empty (trim_space token) ≡ false
  pub answered : v.client t (auth_request v (trim_space token)) ≡ some response
  pub success : (200 ≤ response.status) × (response.status < 300)
  pub decoded : decode_id v response.body ≡ some text
  pub parsed : v.uuid_parse (trim_space text) ≡ some user

module _ (v : SupabaseVerifier) (t : Trace) (token : Str)
    (not_blank : is_empty (trim_space token) ≡ false) where
  verify_parsed-IsVouched :
      (response : Upstream) (text : Str) (o : Option ℕ)
      → v.client t (auth_request v (trim_space token)) ≡ some response
      → (200 ≤ response.status) × (response.status < 300)
      → decode_id v response.body ≡ some text
      → v.uuid_parse (trim_space text) ≡ o
      → Names (IsVouched v t token) (verify_parsed v o)
  unfolding verify_parsed
  verify_parsed-IsVouched response text none a s d e = tt
  verify_parsed-IsVouched response text (some id) a s d e = record {
    response = response;
    text = text;
    not_blank = not_blank;
    answered = a;
    success = s;
    decoded = d;
    parsed = e;
  }

  verify_decoded-IsVouched :
      (response : Upstream) (o : Option Str)
      → v.client t (auth_request v (trim_space token)) ≡ some response
      → (200 ≤ response.status) × (response.status < 300)
      → decode_id v response.body ≡ o
      → Names (IsVouched v t token) (verify_decoded v o)
  unfolding verify_decoded
  verify_decoded-IsVouched response none a s d = tt
  verify_decoded-IsVouched response (some text) a s d =
      verify_parsed-IsVouched response text _ a s d refl

  verify_answered-IsVouched :
      (o : Option Upstream)
      → v.client t (auth_request v (trim_space token)) ≡ o
      → Names (IsVouched v t token) (verify_answered v o)
  unfolding verify_answered
  verify_answered-IsVouched none a = tt
  verify_answered-IsVouched (some response) a =
      elim (Bool-cases (response.status == 401 || response.status == 403)) [
        | inl refused ↦ rw refused tt
        | inr other ↦ elim (Bool-cases (ltb response.status 200 || leb 300 response.status)) [
          | inl failure ↦ rw (other, failure) tt
          | inr success ↦
              rw (other, success) (verify_decoded-IsVouched response _ a (ground arith) refl)
        ]
      ]

-- The verifier names a user only for a token that is not blank and that Supabase, asked with this
-- token, answered with a status from 200 to 299 and a body whose id is that user's.
pub verify-IsVouched :
    (v : SupabaseVerifier) (t : Trace) (token : Str)
    → Names (IsVouched v t token) (verify v t token)
unfolding verify
verify-IsVouched v t token = elim (Bool-cases (is_empty (trim_space token))) [
  | inl blank ↦ rw blank tt
  | inr filled ↦ elim (Bool-cases (v.url_valid v.user_url)) [
    | inl valid ↦
        rw (filled, valid)
          (verify_answered-IsVouched v t token filled
            (v.client t (auth_request v (trim_space token))) refl)
    | inr invalid ↦ rw (filled, invalid) tt
  ]
]
