-- ===== src/Tests/SupportTests.antt =====
-- The views of a player on the sample gateway, which has a route for one of the three services,
-- and on one that has a route for each.
use mathlib.Core.List.Permᴰ
use gateway_service.Prelude.{◌≡◌, ◌∙◌, sym, refl, reverse, some, List, [], ◌∷◌}
use gateway_service.Proxy.Accounting.{IsClosed}
use gateway_service.Admin.Gate.{ReadsOnly}
use gateway_service.Support.{
  SupportSchedule, destination, project_player_support_data, load_player_support,
  handle_player_support,
}
use gateway_service.Support.Gate.{SupportReads, handle_player_support-ReadsOnly}
use gateway_service.Support.Complete.{IsFair, IsComplete, load_player_support-IsComplete}
use gateway_service.Support.Confined.{
  IsConfined, load_player_support-IsConfined, project_player_support_data-restrict,
  project_player_support_data_fixed,
}
use gateway_service.Support.Replay.Confined.{AreConfined, replay_evidence-AreConfined}
use gateway_service.Support.Replay.{
  ReplaySchedule, replay_evidence, handle_player_support_pull_replay,
}
use gateway_service.Support.Replay.Gate.{handle_player_support_pull_replay-ReadsOnly}
use gateway_service.Support.Replay.Accounting.{handle_player_support-IsClosed}
use gateway_service.Section.{SectionName}
use gateway_service.Support.Collecting.{section_at}
use gateway_service.Json.Samples.{
  own_answer, own_answer-IsExact, codec, account_answer, plain_answer, account-restrict,
  plain-restrict,
}
use gateway_service.Json.Exact.{IsExact}
use gateway_service.Json.Restrict.{restrict}
use gateway_service.Text.{Str, lit, eqb}
use gateway_service.Route.{Route}
use gateway_service.World.{Platform, Server, Trace, Event}
use gateway_service.Http.{whole}
use gateway_service.Samples.{platform, server, request, fresh, sink, target, assets}

-- The sample gateway, where some texts parse.
abbrev reading : Platform
reading = record platform { json = codec }

-- The last worker calls first, and the results come in the order of the calls.
abbrev backwards : SupportSchedule
backwards = record { start = reverse; arrive = λ results. results }

abbrev replay_in_order : ReplaySchedule
replay_in_order = record { start = λ names. names; arrive = λ results. results }

backwards-IsFair : IsFair backwards
backwards-IsFair = record {
  starts = λ queries. Permᴰ.symm (Permᴰ.reverse queries);
  arrives = λ results. Permᴰ.refl results;
}

load_player_support-IsComplete_example :
    IsComplete platform server request 7
      (load_player_support platform server backwards request 7 fresh).0
load_player_support-IsComplete_example =
    load_player_support-IsComplete platform server backwards request 7 fresh backwards-IsFair

handle_player_support-ReadsOnly_example :
    ReadsOnly
      (SupportReads platform server request)
      (handle_player_support platform server backwards request fresh).1.trace
handle_player_support-ReadsOnly_example =
    handle_player_support-ReadsOnly platform server backwards request fresh refl

-- A gateway with a route for each of the three services, which answer with the operation of a pull: the
-- replay of it asks the first for the operation and the others for the evidence.
abbrev gacha : Route
gacha = record { name = lit "gacha"; prefix = lit "/api/v1/gacha"; target = target (lit "gacha") }

abbrev backpack : Route
backpack = record {
  name = lit "backpack";
  prefix = lit "/api/v1/backpack";
  target = target (lit "backpack");
}

abbrev pulling : Server
pulling = record server {
  routes = backpack ∷ assets ∷ gacha ∷ [];
  client = λ t o. some (record { status = 200; header = []; body = whole (lit "pulled") });
}

-- The hosts that a trace called, the last one first.
abbrev hosts : Trace → List Str
hosts [] = []
hosts (Event.forward o ∷ t) = o.url.host ∷ hosts t
hosts (_ ∷ t) = hosts t

handle_player_support_pull_replay-ReadsOnly_example :
    ReadsOnly
      (SupportReads reading pulling request)
      (handle_player_support_pull_replay reading pulling replay_in_order request fresh).1.trace
handle_player_support_pull_replay-ReadsOnly_example =
    handle_player_support_pull_replay-ReadsOnly reading pulling replay_in_order request fresh refl

-- The hosts of the three services, that of the operation last.
abbrev replayed : List Str
replayed =
    hosts (handle_player_support_pull_replay reading pulling replay_in_order request fresh).1.trace

handle_player_support-IsClosed_example :
    IsClosed sink
      (handle_player_support platform server backwards request fresh).1.writer.status
      (handle_player_support platform server backwards request fresh).1.trace
    × IsClosed sink
        (handle_player_support_pull_replay platform server replay_in_order request
          fresh).1.writer.status
        (handle_player_support_pull_replay platform server replay_in_order request fresh).1.trace
handle_player_support-IsClosed_example =
    handle_player_support-IsClosed platform server sink backwards replay_in_order request fresh refl
      refl refl

-- Its services answer everything with an account that the gateway knows in part.
abbrev accounts : Server
accounts = record server {
  client = λ t o. some (record { status = 200; header = []; body = whole (lit "account") });
}

load_player_support-IsConfined_example : IsConfined (destination SectionName.account) (
    section_at SectionName.account
      (load_player_support reading accounts backwards request 7 fresh).0.sections)
load_player_support-IsConfined_example =
    load_player_support-IsConfined reading accounts backwards request 7 fresh SectionName.account
      backwards-IsFair

parses : codec.parse (lit "account") ≡ some account_answer
unfolding eqb
parses = refl

parses_plain : codec.parse (lit "plain") ≡ some plain_answer
unfolding eqb
parses_plain = refl

parses_own : codec.parse (lit "exact") ≡ some own_answer
unfolding eqb
parses_own = refl

own_account-IsExact : IsExact codec.unquote codec.quote (destination SectionName.account) own_answer
unfolding destination
own_account-IsExact = own_answer-IsExact

project_player_support_data_fixed_example :
    project_player_support_data reading server SectionName.account (lit "exact") ≡ some own_answer
project_player_support_data_fixed_example =
    project_player_support_data_fixed reading server SectionName.account (lit "exact") own_answer
      parses_own own_account-IsExact

restricts :
    restrict codec.unquote account_answer (destination SectionName.account)
    ≡ restrict codec.unquote plain_answer (destination SectionName.account)
unfolding destination
restricts = account-restrict ∙ sym plain-restrict

project_player_support_data-restrict_example :
    project_player_support_data reading server SectionName.account (lit "account")
    ≡ project_player_support_data reading server SectionName.account (lit "plain")
project_player_support_data-restrict_example =
    project_player_support_data-restrict reading server SectionName.account (lit "account")
      (lit "plain") account_answer plain_answer parses parses_plain restricts

replay_evidence-AreConfined_example :
    AreConfined
      (replay_evidence reading accounts replay_in_order request 7 (some (lit "event")) fresh).0
replay_evidence-AreConfined_example =
    replay_evidence-AreConfined reading accounts replay_in_order request 7 (some (lit "event"))
      fresh (λ results. Permᴰ.refl results)
