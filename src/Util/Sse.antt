-- ===== src/Util/Sse.antt =====
-- packages/util/src/sseClient.ts: `createSSEClient` with the in-memory store of the last event id.
-- The client is single-threaded: a history is the list of what its environment does to it, one event
-- after the other. `connect` waits once, for the store, between `connects` and `resumes`.
pub mod Lifecycle
pub mod Backoff
pub mod Dispose
mod Examples
use trenches.Base.{
  ℕ, suc, ◌+◌, ◌*◌, min, List, [], ◌∷◌, ◌++◌, Option, none, some, Bool, true, false, not, ◌&&◌,
  ◌||◌, String, ◌==◌, ite, filter, text_discrete, if◌then◌else◌,
}

pub record Options : Type 0 where
  pub min_backoff_ms : ℕ
  pub max_backoff_ms : ℕ

pub record Client : Type 0 where
  pub disposed : Bool
  -- The variable `currentSource`, and the sources that are created and not closed.
  pub current_source : Option ℕ
  pub open_sources : List ℕ
  pub next_source : ℕ
  -- The delay of the pending timer.
  pub reconnect_timer : Option ℕ
  pub backoff : ℕ
  pub attempts : ℕ
  -- The calls of `connect` that wait for the store, with the id that it will give.
  pub connecting : List (Option String)
  -- The in-memory store, and the header of the last request.
  pub last_event_id : Option String
  pub sent_event_id : Option String

pub data Event : Type 0 where
  -- The factory returns a source, or throws; then `Math.random` gives the jitter.
  resumes : Event
  fails : ℕ → Event
  opens : ℕ → Event
  errors : ℕ → ℕ → Event
  messages : ℕ → Option String → Event
  timer_fires : Event
  disposes : Event

-- `if (eventId)`.
abbrev truthy : Option String → Bool
truthy none = false
truthy (some s) = ite (text_discrete s "") false true

abbrev pub contains : ℕ → List ℕ → Bool
contains i [] = false
contains i (j ∷ js) = i == j || contains i js

-- `source.close()`.
abbrev pub close : ℕ → List ℕ → List ℕ
close i = filter (λ j. not (i == j))

-- `jitter` is `Math.floor(Math.random() * 500)`; the new timer replaces a pending one.
unfoldable pub schedule_reconnect : Options → ℕ → Client → Client
schedule_reconnect o jitter c = if c.disposed then c else record c {
  reconnect_timer = some (c.backoff + jitter);
  backoff = min (c.backoff * 2) o.max_backoff_ms;
}

-- `connect`, up to its `await`.
unfoldable pub connect : Client → Client
connect c =
    if c.disposed then c else record c { connecting = c.connecting ++ (c.last_event_id ∷ []) }

-- `connect`, from its `await` on: with a source, or with what the factory throws.
unfoldable pub resume : Client → Client
resume c = elim c.connecting [
  | [] ↦ c
  | id ∷ rest ↦ record c {
    connecting = rest;
    current_source = some c.next_source;
    open_sources = c.next_source ∷ c.open_sources;
    next_source = suc c.next_source;
    attempts = suc c.attempts;
    sent_event_id = if truthy id then id else none;
  }
]

unfoldable pub resume_failed : Options → ℕ → Client → Client
unfolding schedule_reconnect
resume_failed o jitter c = elim c.connecting [
  | [] ↦ c
  | id ∷ rest ↦ schedule_reconnect o jitter (record c { connecting = rest })
]

unfoldable pub on_open : Options → Client → Client
on_open o c = record c { attempts = 0; backoff = o.min_backoff_ms }

unfoldable pub on_message : Option String → Client → Client
on_message id c = record c { last_event_id = if truthy id then id else c.last_event_id }

unfoldable pub on_error : Options → ℕ → ℕ → Client → Client
unfolding schedule_reconnect
on_error o i jitter c =
    schedule_reconnect o jitter (record c { open_sources = close i c.open_sources })

unfoldable pub fire : Client → Client
unfolding connect
fire c = elim c.reconnect_timer [
  | none ↦ c
  | some delay ↦ connect (record c { reconnect_timer = none })
]

unfoldable pub dispose : Client → Client
dispose c = elim c.current_source [
  | none ↦ record c { disposed = true; reconnect_timer = none }
  | some i ↦ record c {
    disposed = true;
    reconnect_timer = none;
    current_source = none;
    open_sources = close i c.open_sources;
  }
]

-- A source calls back until it is closed.
abbrev when_open : ℕ → Client → Client → Client
when_open i c c' = if contains i c.open_sources then c' else c

unfoldable pub step : Options → Client → Event → Client
step o c resumes = resume c
step o c (fails jitter) = resume_failed o jitter c
step o c (opens i) = when_open i c (on_open o c)
step o c (errors i jitter) = when_open i c (on_error o i jitter c)
step o c (messages i id) = when_open i c (on_message id c)
step o c timer_fires = fire c
step o c disposes = dispose c

unfoldable pub run : Options → Client → List Event → Client
unfolding step
run o c [] = c
run o c (e ∷ es) = run o (step o c e) es

-- `createSSEClient`, to its first `await`.
unfoldable pub create : Options → Client
unfolding connect
create o = connect (record {
  disposed = false;
  current_source = none;
  open_sources = [];
  next_source = 0;
  reconnect_timer = none;
  backoff = o.min_backoff_ms;
  attempts = 0;
  connecting = [];
  last_event_id = none;
  sent_event_id = none;
})
