-- ===== src/Processor/Steps.antt =====
-- The interleavings of a processor's goroutines, of the calls of `Submit` and of `Shutdown`.
use extend_game_telemetry_co.Prelude.{ℕ, ◌<◌, ◌≡◌, ◌⊎◌, true, false, List, [], ◌∷◌}
use extend_game_telemetry_co.Processor.{
  Processor, idle, finished, waiting, Outcome, receive, leave, timer_expires, timer_fires, advance,
  refuse, enter, close_input, cancel, dedup_changes,
}

module _ {D T : Type 0} where
  -- A worker that receives needs an event in the channel; one that leaves needs the channel
  -- closed and empty, or the context cancelled. A goroutine may call `Submit` again.
  pub data Step : Processor D T → Processor D T → Type 0 where
    receives :
        {p : Processor D T} (i : ℕ) (event : T) (rest : List T)
        → i < p.workers
        → (p.pool i).exited ≡ false
        → p.input_chan.buf ≡ event ∷ rest
        → Step p (receive i event rest p)
    leaves_closed :
        {p : Processor D T} (i : ℕ)
        → i < p.workers
        → (p.pool i).exited ≡ false
        → p.input_chan.buf ≡ []
        → p.input_chan.closed ≡ true
        → Step p (leave i p)
    leaves_cancelled :
        {p : Processor D T} (i : ℕ)
        → i < p.workers
        → (p.pool i).exited ≡ false
        → p.cancelled ≡ true
        → Step p (leave i p)
    expires : {p : Processor D T} (i : ℕ) → i < p.workers → Step p (timer_expires i p)
    fires : {p : Processor D T} (i : ℕ) → i < p.workers → Step p (timer_fires i p)
    enters :
        {p : Processor D T} (j : ℕ) (event : T)
        → (p.callers j ≡ idle) ⊎ ((o : Outcome) × (p.callers j ≡ finished o))
        → Step p (enter j event p)
    advances : {p : Processor D T} (now j : ℕ) → Step p (advance now j p)
    refuses :
        {p : Processor D T} (j : ℕ) (event : T)
        → p.callers j ≡ waiting event
        → p.cancelled ≡ true
        → Step p (refuse j p)
    closes : {p : Processor D T} → p.input_chan.closed ≡ false → Step p (close_input p)
    cancels : {p : Processor D T} → p.input_chan.closed ≡ true → Step p (cancel p)
    changes : {p : Processor D T} (d : D) → Step p (dedup_changes d p)

  pub data Reach (p : Processor D T) : Processor D T → Type 0 where
    here : Reach p p
    later : {q r : Processor D T} → Reach p q → Step q r → Reach p r

  pub continued : {p q r : Processor D T} → Reach p q → Reach q r → Reach p r
  continued run here = run
  continued run (later r s) = later (continued run r) s
