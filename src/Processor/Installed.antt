-- ===== src/Processor/Installed.antt =====
-- The plugins of pkg/processor/processor.go: those that `NewProcessor` was given, to the end.
use mathlib.Core.Option.{some-injective}
use mathlib.Core.Path.{subst}
use extend_game_telemetry_co.Prelude.{
  ℕ, ◌<◌, ◌≡◌, refl, sym, ap, ◌∙◌, Bool, true, false, List, [], ◌∷◌, Option, none, some, arith,
  count, concat, Each,
}
use extend_game_telemetry_co.Dedup.{Deduplicator}
use extend_game_telemetry_co.Processor.Batcher.{make_cap, Batcher, Flushing, add}
use extend_game_telemetry_co.Processor.FanOut.{Plugin}
use extend_game_telemetry_co.Processor.FanOut.Installed.{
  installed, installed-fan_out, installed-fresh, Each-installed, all_written,
}
use extend_game_telemetry_co.Processor.{
  Limits, Config, start, launch, started, Processor, Caller, entered, fresh, sending, waiting, sent,
  count_received, finished, idle, receive, leave, timer_expires, timer_fires, settle, set_worker,
  process_batches, process_batch, set_caller, advance, advance_from, checked, check, mark_seen,
  try_send, enqueue, refuse, enter, close_input, cancel, dedup_changes,
}
use extend_game_telemetry_co.Processor.Steps.{
  Step, receives, leaves_closed, leaves_cancelled, expires, fires, enters, advances, refuses,
  closes, cancels, changes, Reach, here, later,
}
use extend_game_telemetry_co.Processor.Safety.{Reachable, AllExited, graceful_shutdown}

module _ {D T : Type 0} where
  process_batch-installed :
      (b : List T) (p : Processor D T) → installed (process_batch b p).plugins ≡ installed p.plugins
  unfolding process_batch
  process_batch-installed [] p = refl
  process_batch-installed (e ∷ es) p = installed-fan_out p.cancelled (e ∷ es) p.plugins

  process_batches-installed :
      (bs : List (List T)) (p : Processor D T)
      → installed (process_batches bs p).plugins ≡ installed p.plugins
  unfolding process_batches
  process_batches-installed [] p = refl
  process_batches-installed (b ∷ bs) p =
      process_batches-installed bs (process_batch b p) ∙ process_batch-installed b p

  settle-installed :
      (i : ℕ) (exited : Bool) (r : Flushing T) (p : Processor D T)
      → installed (settle i exited r p).plugins ≡ installed p.plugins
  unfolding settle set_worker
  settle-installed i exited r p =
      process_batches-installed r.1 (set_worker i (record { batcher = r.0; exited = exited }) p)

  checked-plugins :
      (o : Option Bool) (j : ℕ) (event : T) (p : Processor D T)
      → (checked o j event p).plugins ≡ p.plugins
  unfolding checked set_caller
  checked-plugins none j event p = refl
  checked-plugins (some false) j event p = refl
  checked-plugins (some true) j event p = refl

  check-plugins :
      (o : Option (Deduplicator D T)) (now j : ℕ) (event : T) (p : Processor D T)
      → (check o now j event p).plugins ≡ p.plugins
  unfolding check set_caller
  check-plugins none now j event p = refl
  check-plugins (some d) now j event p =
      checked-plugins (d.is_duplicate p.cancelled now p.dedup_state event) j event p

  mark_seen-plugins :
      (o : Option (Deduplicator D T)) (now j : ℕ) (event : T) (p : Processor D T)
      → (mark_seen o now j event p).plugins ≡ p.plugins
  unfolding mark_seen set_caller
  mark_seen-plugins none now j event p = refl
  mark_seen-plugins (some d) now j event p = refl

  try_send-plugins :
      (j : ℕ) (event : T) (blocked : Caller T) (p : Processor D T)
      → (try_send j event blocked p).plugins ≡ p.plugins
  unfolding try_send enqueue set_caller
  try_send-plugins j event blocked p = ground arith

  advance_from-plugins :
      (c : Caller T) (now j : ℕ) (p : Processor D T) → (advance_from c now j p).plugins ≡ p.plugins
  unfolding advance_from count_received set_caller
  advance_from-plugins (entered event) now j p = check-plugins p.deduplicator now j event p
  advance_from-plugins (fresh event) now j p = mark_seen-plugins p.deduplicator now j event p
  advance_from-plugins (sending event) now j p = try_send-plugins j event (waiting event) p
  advance_from-plugins (waiting event) now j p = try_send-plugins j event (waiting event) p
  advance_from-plugins sent now j p = refl
  advance_from-plugins (finished o) now j p = refl
  advance_from-plugins idle now j p = refl

  Step-installed : {p q : Processor D T} → Step p q → installed q.plugins ≡ installed p.plugins
  unfolding receive leave timer_expires timer_fires enter refuse set_caller close_input cancel
      dedup_changes advance
  Step-installed {p} (receives i event rest lt up has) =
      settle-installed i (p.pool i).exited (add (p.pool i).batcher event)
        (record p { input_chan = record p.input_chan { buf = rest } })
  Step-installed {p} (leaves_closed i lt up none_left closed) = settle-installed i true _ p
  Step-installed {p} (leaves_cancelled i lt up cancelled) = settle-installed i true _ p
  Step-installed {p} (expires i lt) = settle-installed i (p.pool i).exited _ p
  Step-installed {p} (fires i lt) = settle-installed i (p.pool i).exited _ p
  Step-installed (enters j event free) = refl
  Step-installed {p} (advances now j) = ap installed (advance_from-plugins (p.callers j) now j p)
  Step-installed (refuses j event waits cancelled) = refl
  Step-installed (closes open_chan) = refl
  Step-installed (cancels closed) = refl
  Step-installed (changes d) = refl

  Reach-installed : {p q : Processor D T} → Reach p q → installed q.plugins ≡ installed p.plugins
  Reach-installed here = refl
  Reach-installed (later r s) = Step-installed s ∙ Reach-installed r

  launch-installed :
      (buffer : Option ℕ) (made : Option (Batcher T)) (workers : ℕ) (plugins : List (Plugin T))
      (dedup : Option (Deduplicator D T)) (d : D) (p : Processor D T)
      → launch buffer made workers plugins dedup d ≡ some p
      → installed p.plugins ≡ plugins
  unfolding launch started
  launch-installed none made workers plugins dedup d p e = cc
  launch-installed (some size) none workers plugins dedup d p e = cc
  launch-installed (some size) (some b) workers plugins dedup d p e =
      subst (λ p. installed p.plugins ≡ plugins) (some-injective _ _ e) (installed-fresh plugins)

  start-installed :
      (limits : Limits) (config : Config) (plugins : List (Plugin T))
      (dedup : Option (Deduplicator D T)) (d : D) (p : Processor D T)
      → start limits config plugins dedup d ≡ some p
      → installed p.plugins ≡ plugins
  unfolding start
  start-installed limits config plugins dedup d p e =
      launch-installed (make_cap limits.chan_cap config.channel_buffer) _ _ plugins dedup d p e

  pub Reachable-installed : {q : Processor D T} (r : Reachable q) → installed q.plugins ≡ r.plugins
  Reachable-installed r =
      Reach-installed r.steps
      ∙ start-installed r.limits r.config r.plugins r.dedup r.dedup_state r.first r.starts

  -- With plugins that take every event, a graceful shutdown leaves each of them with every event.
  pub everything_written :
      {q : Processor D T} (r : Reachable q)
      → 0 < q.workers
      → AllExited q
      → q.cancelled ≡ false
      → Each (λ p. (e : T) → p.filter e ≡ true) r.plugins
      → Each (λ s. (t : T → Bool) → count t (concat s.written) ≡ count t q.accepted) q.plugins
  everything_written {q} r some_worker gone live all =
      all_written q.accepted q.plugins
        (Each-installed q.plugins
          (subst (Each (λ p. (e : T) → p.filter e ≡ true)) (sym (Reachable-installed r)) all))
        (λ t. graceful_shutdown r some_worker gone live t)
