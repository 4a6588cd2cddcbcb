-- ===== src/Json/Samples.antt =====
-- Runs of the reading and the writing of JSON on an account, and a codec for the other tests.
use gateway_service.Prelude.{◌≡◌, refl, none, some, [], if◌then◌else◌, pos, inl, inr}
use gateway_service.Text.{lit, eqb, upper, parse_int, itoa}
use gateway_service.Section.Shapes.{player_support_account}
use gateway_service.Json.{
  Json, number, text, object, close, member, Codec, encode, unmarshal, decode, decode_object,
  update, update_where, decode_number, number_of, is_blank, fold_name, fold_from, fold_rune,
}
use gateway_service.Json.Exact.{IsExact}
use gateway_service.Json.Restrict.{restrict, keep_where}

-- An account with two members that the gateway does not know, and the same without them.
abbrev pub account_answer : Json
account_answer = object (
    member (lit "note") (text (lit "internal")) (
      member (lit "Balance_Minor") (number (lit "25")) (member (lit "owner") (object close) close)))

abbrev pub plain_answer : Json
plain_answer = object (member (lit "Balance_Minor") (number (lit "25")) close)

-- The same as the gateway writes it.
abbrev pub own_answer : Json
own_answer = object (member (lit "balance_minor") (number (lit "25")) close)

-- The operation of a pull, as a service answers with it.
abbrev pub pulled_answer : Json
pulled_answer = object (
    member (lit "operation_id") (text (lit "7"))
      (member (lit "request") (object (member (lit "event_id") (text (lit "e")) close)) close))

abbrev pub codec : Codec
codec = record {
  parse = λ s.
      if eqb s (lit "account")
      then some account_answer
      else if eqb s (lit "plain")
      then some plain_answer
      else if eqb s (lit "exact")
      then some own_answer
      else if eqb s (lit "pulled")
      then some pulled_answer
      else none;
  print = λ j. lit "{}";
  unquote = λ s. s;
  quote = λ s. s;
}

pub account-restrict : restrict codec.unquote account_answer player_support_account ≡ plain_answer
unfolding restrict keep_where fold_name fold_from fold_rune eqb upper
account-restrict = refl

pub plain-restrict : restrict codec.unquote plain_answer player_support_account ≡ plain_answer
unfolding restrict keep_where fold_name fold_from fold_rune eqb upper
plain-restrict = refl

-- Both are read as a balance of 25, since a name in JSON matches a field's by its letters in any case.
account-unmarshal :
    unmarshal codec player_support_account (lit "account") ≡ some (pos 25, ([], ([], tt)))
unfolding unmarshal decode decode_object update update_where decode_number fold_name fold_from
    fold_rune eqb upper parse_int
account-unmarshal = refl

-- It is written without its blank texts.
account-encode : encode codec.quote player_support_account (pos 25, ([], ([], tt))) ≡ own_answer
unfolding encode number_of is_blank itoa
account-encode = refl

pub own_answer-IsExact : IsExact codec.unquote codec.quote player_support_account own_answer
unfolding number_of itoa parse_int is_blank
own_answer-IsExact = (
  _,
  refl,
  inl (
    number (lit "25"),
    close,
    refl,
    refl,
    (pos 25, refl, refl),
    λ v e. refl,
    inr (refl, refl, inr (refl, refl, refl)),
  ),
)
