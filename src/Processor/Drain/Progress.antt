-- ===== src/Processor/Drain/Progress.antt =====
-- A shutdown in pkg/processor/processor.go that the timeout does not cut off: some worker can go on
-- until all have returned.
use extend_game_telemetry_co.Prelude.{
  ℕ, zero, suc, ◌+◌, ◌<◌, ◌≡◌, refl, ap, ◌∙◌, Bool, true, false, List, [], ◌∷◌, arith, length,
  total, total-loaded, total-unloaded, inl, inr, Bool-cases, ◌⊎◌, List-cases, ◌==◌, Each, count,
  concat, ◌&&◌,
}
use extend_game_telemetry_co.Processor.Batcher.{add, flush}
use extend_game_telemetry_co.Processor.{Processor, receive, leave}
use extend_game_telemetry_co.Processor.Invariant.{Inv}
use extend_game_telemetry_co.Processor.Untouched.{settle-Settled}
use extend_game_telemetry_co.Processor.Steps.{
  Step, receives, leaves_closed, Reach, here, later, continued,
}
use extend_game_telemetry_co.Processor.Closed.{accepts_nothing}
use extend_game_telemetry_co.Processor.Safety.{
  Step-Inv, Reachable, Reachable-Inv, AllExited, graceful_shutdown,
}
use extend_game_telemetry_co.Processor.Drain.{
  is_running, remaining, is_work, work, settle-remaining, taken-remaining,
}

module _ {D T : Type 0} where
  -- The run that begins with a step.
  first_step : {p q r : Processor D T} → Step p q → Reach q r → Reach p r
  first_step s here = later here s
  first_step s (later r t) = later (first_step s r) t

  work-first_step :
      {p q r : Processor D T} (s : Step p q) (run : Reach q r)
      → work (first_step s run) ≡ is_work s + work run
  unfolding work first_step
  work-first_step s here = omega arith
  work-first_step s (later r t) = omega (arith, work-first_step s r)

  -- A run to a state where every worker has returned.
  record Drained (p : Processor D T) : Type 0 where
    last : Processor D T
    run : Reach p last
    steps : work run ≡ remaining p
    gone : AllExited last
    cancelled : last.cancelled ≡ p.cancelled
    workers : last.workers ≡ p.workers

  -- One step of work that can be made.
  record Workable (p : Processor D T) : Type 0 where
    next : Processor D T
    step : Step p next
    works : is_work step ≡ 1
    fewer : remaining p ≡ suc (remaining next)
    cancelled : next.cancelled ≡ p.cancelled
    workers : next.workers ≡ p.workers

  can_receive :
      (p : Processor D T) (i : ℕ) (event : T) (rest : List T)
      → i < p.workers
      → (p.pool i).exited ≡ false
      → p.input_chan.buf ≡ event ∷ rest
      → Workable p
  unfolding is_work receive
  can_receive p i event rest lt up has =
      let s =
        settle-Settled i (p.pool i).exited (add (p.pool i).batcher event)
          (record p { input_chan = record p.input_chan { buf = rest } }) in
      record {
        next = receive i event rest p;
        step = receives i event rest lt up has;
        works = refl;
        fewer = omega (
          arith,
          taken-remaining p event rest has,
          settle-remaining i (p.pool i).exited (add (p.pool i).batcher event)
              (record p { input_chan = record p.input_chan { buf = rest } }) lt,
        );
        cancelled = s.cancelled;
        workers = s.workers;
      }

  can_leave :
      (p : Processor D T) (i : ℕ)
      → i < p.workers
      → (p.pool i).exited ≡ false
      → p.input_chan.buf ≡ []
      → p.input_chan.closed ≡ true
      → Workable p
  unfolding is_work leave
  can_leave p i lt up none_left closed =
      let s = settle-Settled i true (flush (p.pool i).batcher) p in
      record {
        next = leave i p;
        step = leaves_closed i lt up none_left closed;
        works = refl;
        fewer = ground (arith, up, settle-remaining i true (flush (p.pool i).batcher) p lt);
        cancelled = s.cancelled;
        workers = s.workers;
      }

  -- As long as something is left to do, some worker can do it.
  workable :
      (p : Processor D T)
      → Inv p
      → p.input_chan.closed ≡ true
      → p.cancelled ≡ false
      → 0 < p.workers
      → (remaining p ≡ 0) ⊎ Workable p
  unfolding remaining
  workable p h closed live some_worker = elim (List-cases p.input_chan.buf) [
    | inr (event, rest, has) ↦ elim (Bool-cases (p.pool 0).exited) [
      | inl gone ↦ ground (arith, h.left 0 some_worker gone)
      | inr up ↦ inr (can_receive p 0 event rest some_worker up has)
    ]
    | inl none_left ↦ elim (Bool-cases (total is_running p.workers p.pool == 0)) [
      | inl over ↦ inl (ground (arith, over, ap length none_left))
      | inr running ↦
          let (i, lt, loaded) =
            total-loaded is_running p.workers p.pool (ground (arith, running)) in
          inr (can_leave p i lt (ground (arith, loaded)) none_left closed)
    ]
  ]

  remaining-AllExited : (p : Processor D T) → remaining p ≡ 0 → AllExited p
  unfolding remaining
  remaining-AllExited p over i lt =
      ground (arith, total-unloaded is_running p.workers i p.pool (omega arith) lt)

  drain_from :
      (n : ℕ) (p : Processor D T)
      → remaining p ≡ n
      → Inv p
      → p.input_chan.closed ≡ true
      → p.cancelled ≡ false
      → 0 < p.workers
      → Drained p
  unfolding work
  drain_from zero p size h closed live some_worker = record {
    last = p;
    run = here;
    steps = omega arith;
    gone = remaining-AllExited p size;
    cancelled = refl;
    workers = refl;
  }
  drain_from (suc n) p size h closed live some_worker =
      elim (workable p h closed live some_worker) [
        | inl over ↦ absurd (omega arith)
        | inr w ↦
            let d =
              drain_from n w.next (omega (arith, w.fewer)) (Step-Inv w.step h)
                (accepts_nothing p w.next (later here w.step) closed).0 (w.cancelled ∙ live)
                (omega (arith, w.workers)) in
            record {
              last = d.last;
              run = first_step w.step d.run;
              steps = omega (arith, work-first_step w.step d.run, w.works, d.steps, w.fewer);
              gone = d.gone;
              cancelled = d.cancelled ∙ w.cancelled;
              workers = d.workers ∙ w.workers;
            }
      ]

  -- A shutdown that is not cut off completes. From every reachable state with the channel closed,
  -- the context not cancelled and at least one worker, the workers can drain the channel and
  -- return, in as many steps of work as there are events in the channel and workers that have
  -- not returned; then nothing more was accepted, and each plugin's `WriteBatch` calls hold each
  -- accepted event that passes its filter as often as it was accepted.
  pub shutdown_completes :
      {p : Processor D T}
      → Reachable p
      → p.input_chan.closed ≡ true
      → p.cancelled ≡ false
      → 0 < p.workers
      → (q : Processor D T) × (run : Reach p q) × (work run ≡ remaining p)
        × AllExited q
        × (q.accepted ≡ p.accepted)
        × ((t : T → Bool)
            → Each
                (λ s. count t (concat s.written) ≡ count (λ x. s.plugin.filter x && t x) q.accepted)
                q.plugins)
  shutdown_completes {p} r closed live some_worker =
      let d = drain_from (remaining p) p refl (Reachable-Inv r) closed live some_worker in
      let last_reachable : Reachable d.last = record {
        limits = r.limits;
        config = r.config;
        plugins = r.plugins;
        dedup = r.dedup;
        dedup_state = r.dedup_state;
        first = r.first;
        starts = r.starts;
        steps = continued r.steps d.run;
      } in
      let same : d.last.accepted ≡ p.accepted = (accepts_nothing p d.last d.run closed).1 in
      (
        d.last,
        d.run,
        d.steps,
        d.gone,
        same,
        graceful_shutdown last_reachable (omega (arith, d.workers)) d.gone (d.cancelled ∙ live),
      )
