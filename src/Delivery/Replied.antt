-- ===== src/Delivery/Replied.antt =====
-- The handlers of pkg/service on top of pkg/processor: what an empty reply says of the event.
use extend_game_telemetry_co.Prelude.{
  ℕ, ◌<◌, ◌≡◌, ◌⊎◌, inl, inr, refl, Bool, true, Option, some, Text, count,
}
use extend_game_telemetry_co.Pb
use extend_game_telemetry_co.Events.{Fields}
use extend_game_telemetry_co.Events.StatItemUpdated.{StatItemUpdatedEvent}
use extend_game_telemetry_co.Events.OauthTokenGenerated.{OauthTokenGeneratedEvent}
use extend_game_telemetry_co.Service.{
  empty, stat_event, stat_on_message, token_event, token_on_message,
}
use extend_game_telemetry_co.Processor.{
  Processor, Outcome, queued, skipped, refused, panicked, finished, enter,
}
use extend_game_telemetry_co.Processor.Steps.{Reach}
use extend_game_telemetry_co.Processor.Acknowledged.{OneCall, acknowledged_accepted}

module _ {D : Type 0} where
  -- A stat item event with an empty reply is accepted or a duplicate. When the call of `Submit`
  -- that the handler makes for a request has ended with an outcome, whatever ran in between, and
  -- the handler answers that outcome with the empty message, then the event was skipped as a
  -- duplicate, or more accepted events than before the call pass any test that it passes.
  pub stat_item_replied :
      {Struct : Type 0} (as_map : Option Struct → Fields) (service : Text) (now_ms : ℕ)
      (req : Pb.StatItemUpdated Struct) (j : ℕ) (p q : Processor D StatItemUpdatedEvent)
      (run : Reach (enter j (stat_event as_map service now_ms req) p) q) (outcome : Outcome)
      (t : StatItemUpdatedEvent → Bool)
      → OneCall (stat_event as_map service now_ms req) p.accepted j run
      → q.callers j ≡ finished outcome
      → t (stat_event as_map service now_ms req) ≡ true
      → (stat_on_message as_map service now_ms (λ _. outcome) (some req)).0 ≡ empty
      → (outcome ≡ skipped) ⊎ (count t p.accepted < count t q.accepted)
  unfolding stat_on_message
  stat_item_replied as_map service now_ms req j p q run queued t one done passes replied =
      inr (acknowledged_accepted j (stat_event as_map service now_ms req) p q run t one done passes)
  stat_item_replied as_map service now_ms req j p q run skipped t one done passes replied = inl refl
  stat_item_replied as_map service now_ms req j p q run refused t one done passes replied = cc
  stat_item_replied as_map service now_ms req j p q run panicked t one done passes replied = cc

  -- The same for the events of generated tokens.
  token_replied :
      (service : Text) (now_ms : ℕ) (req : Pb.OauthTokenGenerated) (j : ℕ)
      (p q : Processor D OauthTokenGeneratedEvent)
      (run : Reach (enter j (token_event service now_ms req) p) q) (outcome : Outcome)
      (t : OauthTokenGeneratedEvent → Bool)
      → OneCall (token_event service now_ms req) p.accepted j run
      → q.callers j ≡ finished outcome
      → t (token_event service now_ms req) ≡ true
      → (token_on_message service now_ms (λ _. outcome) (some req)).0 ≡ empty
      → (outcome ≡ skipped) ⊎ (count t p.accepted < count t q.accepted)
  unfolding token_on_message
  token_replied service now_ms req j p q run queued t one done passes replied =
      inr (acknowledged_accepted j (token_event service now_ms req) p q run t one done passes)
  token_replied service now_ms req j p q run skipped t one done passes replied = inl refl
  token_replied service now_ms req j p q run refused t one done passes replied = cc
  token_replied service now_ms req j p q run panicked t one done passes replied = cc
