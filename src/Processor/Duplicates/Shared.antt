-- ===== src/Processor/Duplicates/Shared.antt =====
-- `Submit` of pkg/processor/processor.go with the Redis deduplicator of pkg/dedup/redis.go, whose
-- server other instances of the program use as well.
use mathlib.Core.Path.{subst}
use extend_game_telemetry_co.Prelude.{
  ℕ, Bool, ◌≢◌, none, ◌+◌, ◌≤◌, ◌<◌, ◌%◌, ◌^◌, ◌≡◌, ◌∙◌, sym, true, List, Option, some, Text, pos,
}
use extend_game_telemetry_co.Dedup.{Deduplicator}
use extend_game_telemetry_co.Dedup.Redis.{Server, redis_deduplicator}
use extend_game_telemetry_co.Dedup.Redis.Lifetimes.{
  Expires, Lives, set_keeps, mark-Lives, mark-keeps, Lives-found,
}
use extend_game_telemetry_co.Processor.Duplicates.Same.{
  SameDedup, settle-SameDedup, try_send-SameDedup, count_received-SameDedup, check-SameDedup,
  found-Skipped,
}
use extend_game_telemetry_co.Processor.{
  Processor, Caller, entered, fresh, sending, waiting, sent, finished, idle, skipped, receive,
  leave, timer_expires, timer_fires, set_caller, advance, advance_from, mark_seen, refuse, enter,
  close_input, cancel, dedup_changes,
}
use extend_game_telemetry_co.Processor.Steps.{
  Step, receives, leaves_closed, leaves_cancelled, expires, fires, enters, advances, refuses,
  closes, cancels, changes, Reach, here, later,
}

module _ {R T : Type 0} (server : Server R) (ttl t : ℕ) where
  -- A step at a time from `t` on; a change of the server's state is a SET of another instance, with
  -- the same time to live.
  abbrev pub Shares : {p q : Processor R T} → Step p q → Type 0
  Shares {p} (changes state) =
      (done : Bool) × (now : ℕ) × (key : Text) × (text : Text) × (t ≤ now)
      × (state ≡ (server.set done now key text (pos ttl) p.dedup_state).0)
  Shares (advances now j) = t ≤ now
  Shares (receives i event rest lt up has) = Unit
  Shares (leaves_closed i lt up none_left closed) = Unit
  Shares (leaves_cancelled i lt up cancelled) = Unit
  Shares (expires i lt) = Unit
  Shares (fires i lt) = Unit
  Shares (enters j event free) = Unit
  Shares (refuses j event waits cancelled) = Unit
  Shares (closes open_chan) = Unit
  Shares (cancels closed) = Unit

  abbrev pub AllShare : {p q : Processor R T} → Reach p q → Type 0
  AllShare here = Unit
  AllShare (later r s) = AllShare r × Shares s

module _ {R T : Type 0} (server : Server R) (expiry : R → Text → ℕ) (sha256 : Text → List ℕ)
    (key_of : T → Text) (ttl t : ℕ) (e : T) where
  -- The processor has the Redis deduplicator, and the key of the event lives for its time.
  record Held (p : Processor R T) : Type 0 where
    has : p.deduplicator ≡ some (redis_deduplicator server sha256 key_of (pos ttl))
    lives : Lives expiry sha256 key_of (t + ttl) e p.dedup_state

  SameDedup-Held : {p q : Processor R T} → SameDedup p q → Held p → Held q
  SameDedup-Held same h = record {
    has = same.deduplicator ∙ h.has;
    lives = subst (Lives expiry sha256 key_of (t + ttl) e) (sym same.dedup_state) h.lives;
  }

  module _ (laws : Expires server expiry) where
    mark_seen-Held :
        (o : Option (Deduplicator R T)) (now j : ℕ) (event : T) (p : Processor R T)
        → o ≡ some (redis_deduplicator server sha256 key_of (pos ttl))
        → t ≤ now
        → Held p
        → Held (mark_seen o now j event p)
    unfolding mark_seen set_caller
    mark_seen-Held o now j event p same on_time h = rw same (record {
      has = h.has;
      lives =
          mark-keeps server expiry sha256 key_of laws t ttl p.cancelled now event e p.dedup_state
            on_time h.lives;
    })

    mark_seen-holds :
        (o : Option (Deduplicator R T)) (j : ℕ) (p : Processor R T)
        → o ≡ some (redis_deduplicator server sha256 key_of (pos ttl))
        → p.deduplicator ≡ some (redis_deduplicator server sha256 key_of (pos ttl))
        → ((redis_deduplicator server sha256 key_of (pos ttl)).mark p.cancelled t p.dedup_state e).1
          ≡ true
        → Held (mark_seen o t j e p)
    unfolding mark_seen set_caller
    mark_seen-holds o j p same has no_error = rw same (record {
      has = has;
      lives =
          mark-Lives server expiry sha256 key_of laws t ttl p.cancelled e p.dedup_state no_error;
    })

    advance_from-Held :
        (c : Caller T) (now j : ℕ) (p : Processor R T)
        → t ≤ now
        → Held p
        → Held (advance_from c now j p)
    unfolding advance_from
    advance_from-Held (entered event) now j p on_time h =
        SameDedup-Held (check-SameDedup p.deduplicator now j event p) h
    advance_from-Held (fresh event) now j p on_time h =
        mark_seen-Held p.deduplicator now j event p h.has on_time h
    advance_from-Held (sending event) now j p on_time h =
        SameDedup-Held (try_send-SameDedup j event (waiting event) p) h
    advance_from-Held (waiting event) now j p on_time h =
        SameDedup-Held (try_send-SameDedup j event (waiting event) p) h
    advance_from-Held sent now j p on_time h = SameDedup-Held (count_received-SameDedup j p) h
    advance_from-Held (finished o) now j p on_time h = h
    advance_from-Held idle now j p on_time h = h

    Step-Held : {p q : Processor R T} (s : Step p q) → Shares server ttl t s → Held p → Held q
    unfolding receive leave timer_expires timer_fires enter refuse set_caller close_input cancel
        dedup_changes advance
    Step-Held {p} (receives i event rest lt up has) shared h =
        let moved =
          settle-SameDedup i (p.pool i).exited _
            (record p { input_chan = record p.input_chan { buf = rest } }) in
        SameDedup-Held
          (record { deduplicator = moved.deduplicator; dedup_state = moved.dedup_state }) h
    Step-Held {p} (leaves_closed i lt up none_left closed) shared h =
        SameDedup-Held (settle-SameDedup i true _ p) h
    Step-Held {p} (leaves_cancelled i lt up cancelled) shared h =
        SameDedup-Held (settle-SameDedup i true _ p) h
    Step-Held {p} (expires i lt) shared h =
        SameDedup-Held (settle-SameDedup i (p.pool i).exited _ p) h
    Step-Held {p} (fires i lt) shared h =
        SameDedup-Held (settle-SameDedup i (p.pool i).exited _ p) h
    Step-Held {p} (enters j event free) shared h = record { has = h.has; lives = h.lives }
    Step-Held {p} (advances now j) shared h = advance_from-Held (p.callers j) now j p shared h
    Step-Held (refuses j event waits cancelled) shared h = record { has = h.has; lives = h.lives }
    Step-Held (closes open_chan) shared h = record { has = h.has; lives = h.lives }
    Step-Held (cancels closed) shared h = record { has = h.has; lives = h.lives }
    Step-Held {p} (changes state) (done, now, key, text, on_time, same) h = record {
      has = h.has;
      lives = subst (Lives expiry sha256 key_of (t + ttl) e) (sym same) (
          set_keeps server expiry sha256 key_of laws t ttl done now key _ text p.dedup_state on_time
            h.lives);
    }

    Reach-Held : {p q : Processor R T} (r : Reach p q) → AllShare server ttl t r → Held p → Held q
    Reach-Held here shared h = h
    Reach-Held (later r s) shared h = Step-Held s shared.1 (Reach-Held r shared.0 h)

    marked-Held :
        (j : ℕ) (p : Processor R T)
        → p.deduplicator ≡ some (redis_deduplicator server sha256 key_of (pos ttl))
        → ((redis_deduplicator server sha256 key_of (pos ttl)).mark p.cancelled t p.dedup_state e).1
          ≡ true
        → p.callers j ≡ fresh e
        → Held (advance t j p)
    unfolding advance advance_from
    marked-Held j p has no_error at_mark =
        subst (λ c. Held (advance_from c t j p)) (sym at_mark)
          (mark_seen-holds p.deduplicator j p has has no_error)

    -- A key on Redis keeps duplicates out for its time to live. On a server that keeps to the laws of
    -- SET and EXISTS, with the Redis deduplicator and the time to live `ttl`: when a call of `Submit`
    -- marks its event at time `t` without an error, and then anything runs in any order, at times
    -- from `t` on, with other instances of the program setting keys with the same time to live, a
    -- call that comes to its duplicate check before `t + ttl` with an event of the same key, and
    -- whose check ends without an error (as it does not when the context is done), ends as a
    -- duplicate, adds one to the counter of duplicates (modulo 2 ^ 64), and leaves channel and
    -- accepted events alone.
    pub shared_duplicate :
        (p q : Processor R T) (now' j j' : ℕ) (event' : T) (r : Reach (advance t j p) q)
        → p.deduplicator ≡ some (redis_deduplicator server sha256 key_of (pos ttl))
        → ((redis_deduplicator server sha256 key_of (pos ttl)).mark p.cancelled t p.dedup_state e).1
          ≡ true
        → p.callers j ≡ fresh e
        → key_of e ≡ key_of event'
        → AllShare server ttl t r
        → now' < t + ttl
        → (redis_deduplicator server sha256 key_of (pos ttl)).is_duplicate q.cancelled now'
            q.dedup_state event'
          ≢ none
        → q.callers j' ≡ entered event'
        → ((advance now' j' q).callers j' ≡ finished skipped)
          × ((advance now' j' q).input_chan ≡ q.input_chan)
          × ((advance now' j' q).accepted ≡ q.accepted)
          × ((advance now' j' q).events_duplicated ≡ (q.events_duplicated + 1) % 2 ^ 64)
    shared_duplicate p q now' j j' event' r has no_error at_mark same shared within answered
          at_check =
        let held = Reach-Held r shared (marked-Held j p has no_error at_mark) in
        found-Skipped now' j' event' (redis_deduplicator server sha256 key_of (pos ttl)) q held.has
          (Lives-found server expiry sha256 key_of laws t ttl q.cancelled now' e event'
            q.dedup_state same held.lives within answered)
          at_check
