-- ===== src/Channels/Tests.antt =====
-- A batch of three phones, two at a time, of which the second call fails.
use conversa_forge.Prelude.{◌+◌, ◌==◌, true, List, [], ◌∷◌, none, if◌then◌else◌}
use conversa_forge.Channels.Batches.{Batch, draft, Target, DialResult, calls, fails}
use conversa_forge.Channels.Batches.Events.{
  BatchEvent, uploads, starts, cancels, ticks, reports, ended, on_events,
}
use conversa_forge.Channels.Batches.Laws.{on_events-IsSound}
use conversa_forge.Channels.Batches.Sound.{IsSound}

abbrev empty : Batch
empty = record {
  status = draft;
  status_reason = none;
  concurrency = 2;
  scheduled_at = none;
  started_at = none;
  completed_at = none;
  targets = [];
}

abbrev dial : Target → DialResult
dial t = if t.id == 1 then fails else calls (t.id + 100)

abbrev events : List BatchEvent
events =
    uploads true 1000 ((49 ∷ []) ∷ (50 ∷ []) ∷ (51 ∷ []) ∷ [])
    ∷ starts 2000 none none
    ∷ ticks dial 3000 none
    ∷ reports 4000 0 (ended true)
    ∷ ticks dial 5000 none
    ∷ cancels 6000
    ∷ []

on_events-IsSound_example : let s = on_events events (empty, 0) in IsSound s.1 s.0.targets
on_events-IsSound_example =
    on_events-IsSound events empty 0 (record { once = tt; unique = tt; below = tt })

abbrev uploaded : Batch
uploaded =
    (on_events
      (uploads true 1000 ((49 ∷ []) ∷ (50 ∷ []) ∷ (51 ∷ []) ∷ []) ∷ starts 2000 none none ∷ [])
      (empty, 0)).0
