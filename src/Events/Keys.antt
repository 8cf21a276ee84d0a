-- ===== src/Events/Keys.antt =====
-- Which events share a deduplication key.
use extend_game_telemetry_co.Prelude.{◌≡◌, ◌↔◌, sym, ap, ◌∙◌, arith, Text, codes}
use extend_game_telemetry_co.Events.Colons.{
  NoColon, ◌:+◌, join-injective_left, join-injective_right, join_assoc,
}
use extend_game_telemetry_co.Events.{Float64}
use extend_game_telemetry_co.Events.StatItemUpdated.{
  StatItemUpdatedEvent, stat_code_of, latest_value_of,
}
use extend_game_telemetry_co.Events.StatItemUpdated
use extend_game_telemetry_co.Events.OauthTokenGenerated.{OauthTokenGeneratedEvent, client_id_of}
use extend_game_telemetry_co.Events.OauthTokenGenerated

-- What identifies a stat item event, apart from its kind.
pub record SameStat (show_float : Float64 → Text) (e e' : StatItemUpdatedEvent) : Type 0 where
  pub namespace : e.namespace ≡ e'.namespace
  pub user_id : e.user_id ≡ e'.user_id
  pub timestamp : e.timestamp ≡ e'.timestamp
  pub latest_value :
      show_float (latest_value_of e.payload) ≡ show_float (latest_value_of e'.payload)
  pub stat_code : stat_code_of e.payload ≡ stat_code_of e'.payload

-- No colon but in the timestamp.
pub record StatPlain (e : StatItemUpdatedEvent) : Type 0 where
  pub namespace : NoColon e.namespace
  pub user_id : NoColon e.user_id
  pub stat_code : NoColon (stat_code_of e.payload)

pub record SameToken (e e' : OauthTokenGeneratedEvent) : Type 0 where
  pub namespace : e.namespace ≡ e'.namespace
  pub user_id : e.user_id ≡ e'.user_id
  pub timestamp : e.timestamp ≡ e'.timestamp
  pub client_id : client_id_of e.payload ≡ client_id_of e'.payload

pub record TokenPlain (e : OauthTokenGeneratedEvent) : Type 0 where
  pub namespace : NoColon e.namespace
  pub user_id : NoColon e.user_id
  pub client_id : NoColon (client_id_of e.payload)

same_token :
    (e e' : OauthTokenGeneratedEvent)
    → TokenPlain e
    → TokenPlain e'
    → OauthTokenGenerated.deduplication_key e ≡ OauthTokenGenerated.deduplication_key e'
    → SameToken e e'
unfolding OauthTokenGenerated.deduplication_key
same_token e e' p p' h =
    let kind = codes "oauth_token_generated" in
    let h₁ = join-injective_left kind kind _ _ (omega arith) (omega arith) h in
    let h₂ = join-injective_left e.namespace e'.namespace _ _ p.namespace p'.namespace h₁.1 in
    let h₃ = join-injective_left e.user_id e'.user_id _ _ p.user_id p'.user_id h₂.1 in
    let h₄ = join-injective_right e.timestamp e'.timestamp _ _ p.client_id p'.client_id h₃.1 in
    record { namespace = h₂.0; user_id = h₃.0; timestamp = h₄.0; client_id = h₄.1 }

SameToken-key :
    (e e' : OauthTokenGeneratedEvent)
    → SameToken e e'
    → OauthTokenGenerated.deduplication_key e ≡ OauthTokenGenerated.deduplication_key e'
unfolding OauthTokenGenerated.deduplication_key
SameToken-key e e' s = cc (s.namespace, s.user_id, s.timestamp, s.client_id)

-- Where namespace, user and client id hold no colon, two token events have the same deduplication
-- key exactly when namespace, user, timestamp and client id agree.
pub token_keys_agree :
    (e e' : OauthTokenGeneratedEvent)
    → TokenPlain e
    → TokenPlain e'
    → (OauthTokenGenerated.deduplication_key e ≡ OauthTokenGenerated.deduplication_key e')
      ↔ SameToken e e'
token_keys_agree e e' p p' = (same_token e e' p p', SameToken-key e e')

-- Without that condition keys clash: the fields are joined by colons that are not escaped. Any
-- token event whose user id begins with `x:` has the key of the event with `:x` moved to the end
-- of the namespace.
pub token_keys_clash :
    (e : OauthTokenGeneratedEvent) (x u : Text)
    → e.user_id ≡ x :+ u
    → OauthTokenGenerated.deduplication_key e
      ≡ OauthTokenGenerated.deduplication_key
          (record e { namespace = e.namespace :+ x; user_id = u })
unfolding OauthTokenGenerated.deduplication_key
token_keys_clash e x u h =
    let rest = e.timestamp :+ client_id_of e.payload in
    ap (λ t. codes "oauth_token_generated" :+ t)
      (ap (λ t. e.namespace :+ t :+ rest) h
        ∙ ap (λ t. e.namespace :+ t) (join_assoc x u rest)
        ∙ sym (join_assoc e.namespace x (u :+ rest)))
