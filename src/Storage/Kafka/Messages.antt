-- ===== src/Storage/Kafka/Messages.antt =====
-- What the Kafka plugins send, and how a batch ends.
use extend_game_telemetry_co.Prelude.{
  ℕ, ◌≡◌, ◌≢◌, refl, List, [], ◌∷◌, Option, none, Text, arith, length, Option-cases, ◌⊎◌, inl, inr,
  ◌↔◌,
}
use extend_game_telemetry_co.Events.{Fields}
use extend_game_telemetry_co.Storage.{prepare_all, Stored}
use extend_game_telemetry_co.Storage.Kafka.{Message, message, write_batch, write_messages}

-- The broker took a batch that is not empty, and it is counted.
abbrev pub Taken : (List Message → Option Text) → List Message → ℕ → Type 0
Taken writer messages count = (messages ≢ []) × (writer messages ≡ none) × (count ≡ length messages)

write_messages-counts :
    (writer : List Message → Option Text) (messages : List Message)
    → ((write_messages writer messages).1.1 ≡ none)
      ↔ Taken writer messages (write_messages writer messages).1.0
unfolding write_messages
write_messages-counts writer [] = (λ h. ground arith, λ h. elim (h.0 refl) [ ])
write_messages-counts writer (m ∷ messages) = elim (Option-cases (writer (m ∷ messages))) [
  | inl taken ↦ (λ h. (λ e. ground arith, taken, ground (arith, taken)), λ h. ground (arith, taken))
  | inr (error, refused) ↦ (λ h. ground (arith, refused), λ h. ground (arith, refused))
]

module _ (marshal : Fields → Option Text) {E : Type 0} (stored : Stored E) (kind : Text) where
  -- `WriteBatch` reports no error exactly if the batch is empty, or some event could be
  -- converted, the broker took the messages without an error, and the count is the number of the
  -- messages.
  pub write_batch_counts :
      (writer : List Message → Option Text) (events : List E)
      → ((write_batch marshal stored kind writer events).1.1 ≡ none) ↔ (
          (events ≡ [])
          ⊎ Taken writer
              (prepare_all (message marshal stored kind) events)
              (write_batch marshal stored kind writer events).1.0)
  unfolding write_batch
  write_batch_counts writer [] = (λ h. inl refl, λ h. refl)
  write_batch_counts writer (e ∷ events) =
      let messages = prepare_all (message marshal stored kind) (e ∷ events) in
      (
        λ h. inr ((write_messages-counts writer messages).0 h),
        λ h.
            (write_messages-counts writer messages).1
              (elim h [ inl e' ↦ ground arith | inr t ↦ t ]),
      )
