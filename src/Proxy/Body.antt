-- ===== src/Proxy/Body.antt =====
-- Which request bodies the proxy accepts, and what it forwards of them.
use mathlib.Core.Path.{ap₂}
use native.Mathlib.Numerals.{add-one}
use gateway_service.Prelude.{
  ap, ℕ, zero, suc, ◌+◌, ◌-◌, ◌^◌, ◌≤◌, ◌<◌, ◌≡◌, refl, sym, Bool, true, false, ltb, leb, Option,
  Bool-cases, inl, inr, [], ◌∷◌, arith, none, some, ◌∙◌, length, take, length-take, take_all,
}
use gateway_service.Text.{Str, lit}
use gateway_service.Header.{get}
use gateway_service.Http.{Request, Stream, whole, broken, limit_above, read_limited}
use gateway_service.Audit.{AuditBody, audit_body_sized}
use gateway_service.World.{Platform, Server}
use gateway_service.Proxy.{
  Reading, unreadable, read, read_proxy_request_body, proxy_reading, proxy_body,
}

read_broken : (content : Str) (n : ℕ) → length content < n → read_limited (broken content) n ≡ none
unfolding read_limited
read_broken content n h = ground arith

limit_above_wraps : (max : ℕ) → max ≡ 2 ^ 63 - 1 → limit_above max ≡ 0
unfolding limit_above
limit_above_wraps max h = ground arith

limit_above_suc : (max : ℕ) → max + 1 < 2 ^ 63 → limit_above max ≡ max + 1
unfolding limit_above
limit_above_suc max h = ground arith

module _ (p : Platform) (s : Server) (content_type content : Str) where
  proxy_reading_fits :
      length content ≤ s.max_body_bytes
      → proxy_reading p s content_type (some content)
        ≡ read content
            (audit_body_sized p.normalize_json content content_type s.audit_max_body_bytes
              (length content))
            false
  unfolding proxy_reading
  proxy_reading_fits fits = ground arith

  proxy_reading_large :
      s.max_body_bytes < length content
      → proxy_reading p s content_type (some content)
        ≡ read
            (take s.max_body_bytes content)
            (audit_body_sized p.normalize_json
              (take s.max_body_bytes content)
              content_type
              s.audit_max_body_bytes
              (length content))
            true
  unfolding proxy_reading
  proxy_reading_large large = ground arith

  take-limit_above :
      s.max_body_bytes + 1 < 2 ^ 63
      → length content ≤ s.max_body_bytes
      → take (limit_above s.max_body_bytes) content ≡ content
  take-limit_above bound fits =
      rw (limit_above_suc s.max_body_bytes bound)
        (take_all (s.max_body_bytes + 1) content (omega arith))

-- `take` twice
take-take : (m : ℕ) (xs : Str) → take m (take (suc m) xs) ≡ take m xs
take-take zero [] = refl
take-take zero (x ∷ xs) = refl
take-take (suc m) [] = refl
take-take (suc m) (x ∷ xs) = rw (take-take m xs)

module _ (p : Platform) (s : Server) (r : Request) (content : Str) where
  -- With a limit below 2^63 - 1, a body within the limit that arrives whole is accepted by the reader,
  -- kept whole, and recorded with its size.
  pub read_proxy_request_body_fits :
      s.max_body_bytes + 1 < 2 ^ 63
      → r.body ≡ some (whole content)
      → length content ≤ s.max_body_bytes
      → read_proxy_request_body p s r
        ≡ read content
            (audit_body_sized p.normalize_json content
              (get r.header (lit "Content-Type"))
              s.audit_max_body_bytes
              (length content))
            false
  unfolding read_proxy_request_body read_limited
  read_proxy_request_body_fits bound is_body fits =
      ap (proxy_body p s (get r.header (lit "Content-Type"))) is_body
      ∙ ap (λ (t : Str). proxy_reading p s (get r.header (lit "Content-Type")) (some t))
          (take-limit_above p s (get r.header (lit "Content-Type")) content bound fits)
      ∙ proxy_reading_fits p s (get r.header (lit "Content-Type")) content fits

  -- With a limit below 2^63 - 1, a larger body that arrives whole is refused, recorded up to the limit
  -- with a size above it, whatever follows the first byte too many.
  pub read_proxy_request_body_large :
      s.max_body_bytes + 1 < 2 ^ 63
      → r.body ≡ some (whole content)
      → s.max_body_bytes < length content
      → read_proxy_request_body p s r
        ≡ read
            (take s.max_body_bytes content)
            (audit_body_sized p.normalize_json
              (take s.max_body_bytes content)
              (get r.header (lit "Content-Type"))
              s.audit_max_body_bytes
              (s.max_body_bytes + 1))
            true
  unfolding read_proxy_request_body read_limited
  read_proxy_request_body_large bound is_body large =
      ap (proxy_body p s (get r.header (lit "Content-Type"))) is_body
      ∙ ap
          (λ (n : ℕ). proxy_reading p s (get r.header (lit "Content-Type")) (some (take n content)))
          (limit_above_suc s.max_body_bytes bound ∙ add-one s.max_body_bytes)
      ∙ proxy_reading_large p s (get r.header (lit "Content-Type"))
          (take (suc s.max_body_bytes) content)
          (omega (arith, length-take (suc s.max_body_bytes) content))
      ∙ ap₂
          (λ (kept : Str) (n : ℕ).
            read kept
              (audit_body_sized p.normalize_json kept (get r.header (lit "Content-Type"))
                s.audit_max_body_bytes n)
              true)
          (take-take s.max_body_bytes content)
          (omega (arith, length-take (suc s.max_body_bytes) content))

  -- With the largest limit that the configuration accepts, `max + 1` wraps around in int64: every
  -- body is read as empty and accepted.
  pub read_proxy_request_body_overflow :
      s.max_body_bytes ≡ 2 ^ 63 - 1
      → r.body ≡ some (whole content)
      → (audit_body : AuditBody) × (read_proxy_request_body p s r ≡ read [] audit_body false)
  unfolding read_proxy_request_body read_limited
  read_proxy_request_body_overflow largest is_body = (
    _,
    ap (proxy_body p s (get r.header (lit "Content-Type"))) is_body
        ∙ ap
            (λ (n : ℕ).
              proxy_reading p s (get r.header (lit "Content-Type")) (some (take n content)))
            (limit_above_wraps s.max_body_bytes largest)
        ∙ proxy_reading_fits p s (get r.header (lit "Content-Type")) [] (omega arith),
  )

  -- A body that breaks off before the limit is refused.
  pub read_proxy_request_body_broken :
      s.max_body_bytes + 1 < 2 ^ 63
      → r.body ≡ some (broken content)
      → length content ≤ s.max_body_bytes
      → read_proxy_request_body p s r ≡ unreadable
  unfolding read_proxy_request_body
  read_proxy_request_body_broken bound is_body fits =
      ap (proxy_body p s (get r.header (lit "Content-Type"))) is_body
      ∙ ap
          (λ (n : ℕ).
            proxy_reading p s (get r.header (lit "Content-Type")) (read_limited (broken content) n))
          (limit_above_suc s.max_body_bytes bound)
      ∙ ap (proxy_reading p s (get r.header (lit "Content-Type")))
          (read_broken content (s.max_body_bytes + 1) (omega arith))
      ∙ (unfold proxy_reading in refl)

-- What was kept of a body is all of it.
abbrev pub IsWhole : Option Stream → Str → Type 0
IsWhole none body = body ≡ []
IsWhole (some (whole content)) body = body ≡ content
IsWhole (some (broken content)) body = ⊥

abbrev kept_of : Reading → Str
kept_of unreadable = []
kept_of (read body audit_body large) = body

abbrev is_large : Reading → Bool
is_large unreadable = true
is_large (read body audit_body large) = large

module _ (p : Platform) (s : Server) (content_type body : Str) (audit_body : AuditBody) where
  proxy_reading-kept :
      (content : Str)
      → proxy_reading p s content_type (some content) ≡ read body audit_body false
      → (content ≡ body) × (length content ≤ s.max_body_bytes)
  unfolding proxy_reading
  proxy_reading-kept content h =
      let kept = ap kept_of h in
      let fits : ltb s.max_body_bytes (length content) ≡ false = ap is_large h in
      (ground (arith, kept), ground (arith, fits))

  stream-kept :
      (stream : Stream)
      → s.max_body_bytes + 1 < 2 ^ 63
      → proxy_reading p s content_type (read_limited stream (limit_above s.max_body_bytes))
        ≡ read body audit_body false
      → IsWhole (some stream) body × (length body ≤ s.max_body_bytes)
  unfolding read_limited proxy_reading
  stream-kept (whole content) bound h =
      let (same, fits) =
        proxy_reading-kept (take (s.max_body_bytes + 1) content)
          (rw (limit_above_suc s.max_body_bytes bound) at h) in
      let all : take (s.max_body_bytes + 1) content ≡ content =
        take_all (s.max_body_bytes + 1) content
          (omega (arith, fits, length-take (s.max_body_bytes + 1) content)) in
      (sym same ∙ all, omega (arith, fits, ap (length {A = _}) same))
  stream-kept (broken content) bound h =
      elim (Bool-cases (leb (s.max_body_bytes + 1) (length content))) [
        | inl large ↦
            let (same, fits) =
              proxy_reading-kept (take (s.max_body_bytes + 1) content)
                (rw (limit_above_suc s.max_body_bytes bound, large) at h) in
            absurd (ground (arith, fits, large, length-take (s.max_body_bytes + 1) content))
        | inr short ↦
            let flag : true ≡ false =
              ap is_large (rw (limit_above_suc s.max_body_bytes bound, short) at h) in
            cc
      ]

-- With a limit below 2^63 - 1, what the reader accepts is the whole body, within the limit.
pub read_proxy_request_body-IsWhole :
    (p : Platform) (s : Server) (r : Request) (body : Str) (audit_body : AuditBody)
    → s.max_body_bytes + 1 < 2 ^ 63
    → read_proxy_request_body p s r ≡ read body audit_body false
    → IsWhole r.body body × (length body ≤ s.max_body_bytes)
unfolding read_proxy_request_body
read_proxy_request_body-IsWhole p s r body audit_body bound h = accepted r.body h
  where
    accepted :
        (o : Option Stream)
        → proxy_body p s (get r.header (lit "Content-Type")) o ≡ read body audit_body false
        → IsWhole o body × (length body ≤ s.max_body_bytes)
    accepted none h = let e : body ≡ [] = sym (ap kept_of h) in (e, rw e (omega arith))
    accepted (some stream) h =
        stream-kept p s (get r.header (lit "Content-Type")) body audit_body stream bound h
