-- ===== src/Auth/Signing.antt =====
-- The signing clock (internal/mqttauth/signingclock.go). The lock serialises the operations, so
-- each is a function on the state; a timer that fires and a write that ends are operations too.
-- Wall-clock times are milliseconds and not negative; `m` is the monotonic clock in milliseconds.
-- The disk, `DurableMark`, is what ends a write: `write_ended` takes its outcome.
pub mod Steps
pub mod Waking
pub mod Soundness
pub mod Coverage
pub mod Order
pub mod Restart
pub mod Episode
pub mod Waits
use ori_gateway.Base.{
  ℕ, zero, suc, ◌+◌, ◌-◌, ◌*◌, ◌/◌, ◌%◌, ◌^◌, ◌≤◌, ◌<◌, min, max, String, ◌≡◌, refl, sym, ap, subst,
  ◌∙◌, ◌≢◌, ◌↔◌, ◌⊎◌, inl, inr, Bool, true, false, not, ◌&&◌, ◌||◌, Option, none, some, List, [],
  ◌∷◌, ◌++◌, map, arith, eq_iff, ltb, leb, if◌then◌else◌, nat_beq, ltb→lt, lt→ltb, leb→le,
  Bool-cases, Option-cases, is_some, length, length-append, drop, any, all, All, Eq, ◌==◌, nat_eq,
  string_eq,
}

abbrev pub signing_ceiling : ℕ
signing_ceiling = 9223372036854773806

abbrev pub signing_reservation : ℕ
signing_reservation = 1000

abbrev pub signing_ahead_warning : ℕ
signing_ahead_warning = 300000

abbrev pub mark_retry_pacing : ℕ
mark_retry_pacing = 1000

abbrev pub max_notes : ℕ
max_notes = 64

pub data Note : Type 0 where
  refusing persisted_again unpersisted : Note
  running_ahead : ℕ → ℕ → Note

-- A write is told from the others by its number, as the channel of its end does.
pub record MarkWrite : Type 0 where
  pub number : ℕ
  pub mark : ℕ

pub record Clock : Type 0 where
  pub durable : Bool
  pub last : ℕ
  pub covered : ℕ
  pub written : ℕ
  pub ahead : Bool
  pub closed : Bool
  pub episode : Bool
  pub write : Option MarkWrite
  pub writes : ℕ
  pub write_started : ℕ
  pub retry : Option ℕ
  pub changed : ℕ
  pub notes : List Note
  pub draining : Bool
  pub dropped : ℕ
  pub refused : Bool

unfoldable pub new_signing_clock : Clock
new_signing_clock = record {
  durable = false;
  last = 0;
  covered = 0;
  written = 0;
  ahead = false;
  closed = false;
  episode = false;
  write = none;
  writes = 0;
  write_started = 0;
  retry = none;
  changed = 0;
  notes = [];
  draining = false;
  dropped = 0;
  refused = false;
}

pub data StartWrite : Type 0 where
  start_written start_failed start_outstanding : StartWrite

pub data StartRefusal : Type 0 where
  start_exhausted persist_failed write_unfinished : StartRefusal

pub data Start : Type 0 where
  started : Clock → Start
  refused_start : StartRefusal → Start

unfoldable pub first_value : ℕ → Option ℕ → ℕ
first_value wall none = wall
first_value wall (some found) = max wall (found + 1)

unfoldable pub first_mark : ℕ → Option ℕ → ℕ
first_mark wall none = min (wall + signing_reservation) (signing_ceiling - 1)
first_mark wall (some found) = min (max (wall + signing_reservation) found) (signing_ceiling - 1)

abbrev pub found_mark : Option ℕ → ℕ
found_mark none = 0
found_mark (some found) = found

unfoldable pub new_durable_signing_clock : ℕ → ℕ → Option ℕ → StartWrite → Start
unfolding first_value first_mark new_signing_clock
new_durable_signing_clock wall m found outcome =
    if leb signing_ceiling (first_value wall found)
    then refused_start start_exhausted
    else elim outcome [
      | start_outstanding ↦ refused_start write_unfinished
      | start_failed ↦ refused_start persist_failed
      | start_written ↦ started (record new_signing_clock {
        durable = true;
        last = found_mark found;
        covered = max (found_mark found) (first_mark wall found);
        written = first_mark wall found;
        write_started = m;
      })
    ]

unfoldable pub reservation_for : ℕ → ℕ → ℕ
reservation_for wall at = min (max (wall + signing_reservation) at) (signing_ceiling - 1)

-- `noteLocked`, and `drain` taking the queue.
unfoldable pub note : Note → Clock → Clock
note n c =
    if leb max_notes (length c.notes)
    then record c { dropped = c.dropped + 1 }
    else record c { notes = c.notes ++ (n ∷ []); draining = true }

unfoldable pub drain : Clock → Clock × (List Note × ℕ)
drain c = elim (c.notes) [
  | [] ↦ elim (c.dropped) [
    | zero ↦ (record c { draining = false }, ([], 0))
    | suc k ↦ (record c { dropped = 0 }, ([], suc k))
  ]
  | n ∷ ns ↦ (record c { notes = []; dropped = 0 }, (n ∷ ns, c.dropped))
]

unfoldable pub broadcast : Clock → Clock
broadcast c = record c { changed = c.changed + 1 }

unfoldable pub start_write : ℕ → ℕ → Clock → Clock
start_write m mark c = record c {
  written = max mark c.written;
  write = some (record { number = c.writes + 1; mark = max mark c.written });
  writes = c.writes + 1;
  write_started = m;
}

-- The next write of an episode is due `mark_retry_pacing` after the previous one started, or now:
-- `m + max (mark_retry_pacing - (m - write_started), 0)` without the subtractions.
unfoldable pub schedule_retry : ℕ → Clock → Clock
schedule_retry m c =
    if is_some c.retry || (c.closed || is_some c.write)
    then c
    else record c { retry = some (max m (c.write_started + mark_retry_pacing)) }

unfoldable pub open_episode : ℕ → Clock → Clock
open_episode m c =
    if c.episode
    then c
    else broadcast (schedule_retry m (note unpersisted (record c { episode = true })))

unfoldable pub end_episode : Clock → Clock
end_episode c =
    if c.episode && leb c.last c.covered
    then note persisted_again (record c { episode = false })
    else c

unfoldable pub retry_if_open : ℕ → Clock → Clock
retry_if_open m c = if c.episode then schedule_retry m c else c

-- `persist`, once `Persist` has returned: the outstanding write has ended.
unfoldable pub write_ended : ℕ → Bool → Clock → Clock
write_ended m ok c = elim (c.write) [
  | none ↦ c
  | some w ↦ broadcast (
      retry_if_open m (
        if ok
        then end_episode (record c { write = none; covered = max c.covered w.mark })
        else open_episode m (record c { write = none })))
]

-- The timer of the write with this number.
unfoldable pub write_overdue : ℕ → ℕ → Clock → Clock
write_overdue m number c = elim (c.write) [
  | none ↦ c
  | some w ↦ if nat_beq w.number number then open_episode m c else c
]

-- The timer of a value that waits, or has been answered.
unfoldable pub value_overdue : ℕ → Bool → Clock → Clock
value_overdue m answered c = if answered then c else open_episode m c

unfoldable pub retry_write : ℕ → ℕ → Clock → Clock
retry_write wall m c =
    if c.closed || (not c.episode || is_some c.write)
    then record c { retry = none }
    else start_write m (reservation_for wall c.last) (record c { retry = none })

unfoldable pub stop : Clock → Clock
stop c = broadcast (record c { closed = true; retry = none })

unfoldable pub degraded : Clock → Bool
degraded c = c.episode

-- What one pass of the loop of `Next` ends with: a value that waits for coverage takes the next
-- pass when `changed` has moved on.
pub data Answer : Type 0 where
  exhausted stopped waiting : Answer
  issued : ℕ → Answer

unfoldable pub refuse_stopped : Clock → Clock
refuse_stopped c = if c.refused then c else note refusing (record c { refused = true })

unfoldable pub cover : ℕ → ℕ → ℕ → Clock → Clock
cover wall m at c = if is_some c.write then c else start_write m (reservation_for wall at) c

unfoldable pub extend : ℕ → ℕ → ℕ → Clock → Clock
extend wall m at c =
    if not c.episode
      && (not (is_some c.write)
          && (ltb c.covered (at + signing_reservation / 2)
              && ltb c.covered (reservation_for wall at)))
    then start_write m (reservation_for wall at) c
    else c

unfoldable pub warn_ahead : ℕ → ℕ → Clock → Clock
warn_ahead wall at c =
    if ltb (wall + signing_ahead_warning) at
    then (if c.ahead then c else record (note (running_ahead at wall) c) { ahead = true })
    else record c { ahead = false }

unfoldable pub issue : ℕ → ℕ → Clock → Clock
issue wall at c = record (warn_ahead wall at c) { last = at }

unfoldable pub next_durable : ℕ → ℕ → ℕ → Clock → Clock × Answer
next_durable wall m at c =
    if c.closed
    then (refuse_stopped c, stopped)
    else if ltb c.covered at && not c.episode
    then (cover wall m at c, waiting)
    else (issue wall at (extend wall m at c), issued at)

unfoldable pub next : ℕ → ℕ → Clock → Clock × Answer
next wall m c =
    let at : ℕ = max wall (c.last + 1) in
    if leb signing_ceiling at
    then (c, exhausted)
    else if c.durable
    then next_durable wall m at c
    else (issue wall at c, issued at)
