-- ===== src/Tests/TokenTests.antt =====
-- Sessions in cookies.
use gateway_service.Prelude.{◌≡◌, refl, [], ◌∷◌, List}
use gateway_service.Text.{Str, lit}
use gateway_service.Token.{Values, cookie_values, combine_cookie_chunks}
use gateway_service.Token.Sessions.{
  IsCombined, chunk_cookies, joined, combine_cookie_chunks-IsCombined, combine_cookie_chunks-joined,
}

-- An older session in one chunk, under the name of the new one.
abbrev older : Values
older = (lit "sb-a-auth-token.0", lit "old") ∷ (lit "theme", lit "dark") ∷ []

abbrev parts : List Str
parts = lit "first" ∷ lit "second" ∷ []

combine_cookie_chunks-IsCombined_example :
    IsCombined older (lit "sb-a-auth-token") (combine_cookie_chunks older (lit "sb-a-auth-token"))
combine_cookie_chunks-IsCombined_example =
    combine_cookie_chunks-IsCombined older (lit "sb-a-auth-token")

combine_cookie_chunks-joined_example :
    combine_cookie_chunks
      (cookie_values (chunk_cookies (lit "sb-a-auth-token") 0 parts) older)
      (lit "sb-a-auth-token")
    ≡ joined parts
unfolding gateway_service.Token.lookup gateway_service.Token.chunk_name gateway_service.Text.eqb
    gateway_service.Text.itoa
combine_cookie_chunks-joined_example =
    combine_cookie_chunks-joined (lit "sb-a-auth-token") parts older refl refl
