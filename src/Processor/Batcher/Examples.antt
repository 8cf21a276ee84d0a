-- ===== src/Processor/Batcher/Examples.antt =====
-- A batcher of size 2: a full batch, a timeout, a late callback and a manual flush.
use extend_game_telemetry_co.Prelude.{
  ltb, ℕ, ◌<◌, ◌≡◌, refl, List, [], ◌∷◌, ◌++◌, none, some, length, concat, Each, pos, negsuc,
}
use extend_game_telemetry_co.Processor.Batcher.{
  Batcher, Call, adds, flushes, expires, fires, new_batcher, make_cap, run, step, fire, expire, add,
  flush,
}
use extend_game_telemetry_co.Processor.Batcher.Contents.{added, run-contents}
use extend_game_telemetry_co.Processor.Batcher.Sizes.{FitsIn, bound, run-new-fits}
use extend_game_telemetry_co.Processor.Batcher.Timers.{Timed, run-new-Timed}

abbrev fresh : Batcher ℕ
fresh = record {
  events = [];
  max_size = pos 2;
  max_wait = pos 5;
  timer = none;
  running = [];
  fired = 0;
  next_timer = 0;
}

fresh_made : new_batcher {T = ℕ} (λ n. ltb n 100) (pos 2) (pos 5) ≡ some fresh
unfolding new_batcher make_cap
fresh_made = refl

abbrev history : List (Call ℕ)
history = adds 7 ∷ expires ∷ adds 8 ∷ adds 9 ∷ fires ∷ adds 6 ∷ flushes ∷ []

history_batches : (run fresh history).1 ≡ (7 ∷ 8 ∷ []) ∷ (9 ∷ []) ∷ (6 ∷ []) ∷ []
unfolding run step add fire expire flush
history_batches = refl

negative_size : new_batcher {T = ℕ} (λ n. ltb n 100) (negsuc 0) (pos 5) ≡ none
unfolding new_batcher make_cap
negative_size = refl

run-contents_example :
    concat (run fresh history).1 ++ (run fresh history).0.events ≡ [] ++ added history
run-contents_example = run-contents fresh history

run-new-fits_example :
    Each (FitsIn (pos 2)) (run fresh history).1
    × (length (run fresh history).0.events < bound (pos 2))
run-new-fits_example = run-new-fits (pos 2) (λ n. ltb n 100) (pos 5) fresh history fresh_made

run-new-Timed_example : Timed (run fresh history).0
run-new-Timed_example = run-new-Timed (λ n. ltb n 100) (pos 2) (pos 5) fresh history fresh_made
