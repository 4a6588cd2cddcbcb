-- ===== src/Support/Replay/Confined.antt =====
-- What of the services' answers the replay of a pull operation shows.
use mathlib.Core.List.{Permᴰ}
use gateway_service.Prelude.{
  ℕ, refl, Option, none, some, List, [], ◌∷◌, ◌==◌, All, All-Permᴰ, Bool-cases, inl, inr, is_empty,
}
use gateway_service.Text.{Str, trim_space}
use gateway_service.Http.{Request}
use gateway_service.Json.{Shape, Meaning, unmarshal}
use gateway_service.Json.Shaped.{encode-IsShaped}
use gateway_service.Section.{Section, not_applicable_section}
use gateway_service.World.{Platform, Server, World}
use gateway_service.Support.{is_failure}
use gateway_service.Support.Confined.{IsConfined, unavailable-IsConfined, not_found-IsConfined}
use gateway_service.Support.Replay.{
  EvidenceName, EvidenceResult, Evidence, ReplaySchedule, no_event, set_evidence, collect_evidence,
  evidence_destination, evidence_decoded, evidence_read, load_player_support_replay_evidence,
  load_evidence, load_all_evidence, replay_evidence,
}

-- Every result of a worker comes out of the channel once.
abbrev pub IsDelivered : ReplaySchedule → Type 0
IsDelivered schedule = (results : List EvidenceResult) → Permᴰ results (schedule.arrive results)

-- Both sections of the evidence are confined to their Go types.
abbrev pub AreConfined : Evidence → Type 0
AreConfined x =
    IsConfined (evidence_destination EvidenceName.asset_spend) x.asset_spend
    × IsConfined (evidence_destination EvidenceName.backpack_delivery) x.backpack_delivery

abbrev Fits : EvidenceResult → Type 0
Fits result = IsConfined (evidence_destination result.name) result.section

no_event-IsConfined : (shape : Shape) → IsConfined shape no_event
unfolding not_applicable_section
no_event-IsConfined shape = inl (λ e. cc, refl)

collect_evidence-AreConfined :
    (results : List EvidenceResult) (x : Evidence)
    → All Fits results
    → AreConfined x
    → AreConfined (collect_evidence results x)
unfolding collect_evidence
collect_evidence-AreConfined [] x h c = c
collect_evidence-AreConfined (result ∷ results) x (h, hs) c =
    collect_evidence-AreConfined results _ hs (stored result.name result.section h)
  where
    stored :
        (name : EvidenceName) (section : Section)
        → IsConfined (evidence_destination name) section
        → AreConfined (set_evidence name section x)
    stored EvidenceName.asset_spend section h = unfold set_evidence in (h, c.1)
    stored EvidenceName.backpack_delivery section h = unfold set_evidence in (c.0, h)

module _ (p : Platform) (s : Server) (r : Request) (player : ℕ) where
  evidence_decoded-IsConfined :
      (shape : Shape) (o : Option (Meaning shape)) → IsConfined shape (evidence_decoded p s shape o)
  unfolding evidence_decoded
  evidence_decoded-IsConfined shape none = unavailable-IsConfined _ _ _
  evidence_decoded-IsConfined shape (some v) =
      inr (_, refl, refl, encode-IsShaped p.json.quote shape v)

  evidence_read-IsConfined :
      (route_name : Str) (name : EvidenceName) (o : Option (Str × ℕ))
      → IsConfined (evidence_destination name) (evidence_read p s route_name name o)
  unfolding evidence_read
  evidence_read-IsConfined route_name name none = unavailable-IsConfined _ _ _
  evidence_read-IsConfined route_name name (some (body, status)) =
      elim (Bool-cases (status == 404)) [
        | inl missing ↦ rw missing (not_found-IsConfined _)
        | inr present ↦ elim (Bool-cases (is_failure status)) [
          | inl failure ↦ rw (present, failure) (unavailable-IsConfined _ _ _)
          | inr success ↦
              rw (present, success)
                (evidence_decoded-IsConfined (evidence_destination name)
                  (unmarshal p.json (evidence_destination name) body))
        ]
      ]

  load_evidence-IsConfined :
      (event : Str) (name : EvidenceName) (w : World)
      → IsConfined (evidence_destination name) (load_evidence p s r player event name w).0
  unfolding load_evidence load_player_support_replay_evidence
  load_evidence-IsConfined event EvidenceName.asset_spend w = evidence_read-IsConfined _ _ _
  load_evidence-IsConfined event EvidenceName.backpack_delivery w = evidence_read-IsConfined _ _ _

  load_all_evidence-Fits :
      (event : Str) (names : List EvidenceName) (w : World)
      → All Fits (load_all_evidence p s r player event names w).0
  unfolding load_all_evidence
  load_all_evidence-Fits event [] w = tt
  load_all_evidence-Fits event (name ∷ names) w =
      (load_evidence-IsConfined event name w, load_all_evidence-Fits event names _)

  abbrev unread : AreConfined (record { asset_spend = no_event; backpack_delivery = no_event })
  unread = (no_event-IsConfined _, no_event-IsConfined _)

-- Whatever the services answer and in whatever order the two workers run, if each result arrives once,
-- both sections of the evidence for a replay are either not ok and hold null, or ok with a value of
-- their Go type: at any depth the declared fields in their order, with values of their types, and no
-- other, where only `omitempty` fields may be missing.
pub replay_evidence-AreConfined :
    (p : Platform) (s : Server) (schedule : ReplaySchedule) (r : Request) (player : ℕ)
    (event : Option Str) (w : World)
    → IsDelivered schedule
    → AreConfined (replay_evidence p s schedule r player event w).0
unfolding replay_evidence
replay_evidence-AreConfined p s schedule r player none w delivered = unread p s r player
replay_evidence-AreConfined p s schedule r player (some event) w delivered =
    elim (Bool-cases (is_empty (trim_space event))) [
      | inl blank ↦ rw blank (unread p s r player)
      | inr filled ↦ rw filled (
          collect_evidence-AreConfined _ _
            (All-Permᴰ Fits (delivered _)
              (load_all_evidence-Fits p s r player (trim_space event) _ w))
            (unread p s r player))
    ]
