-- ===== src/Stats/Tests.antt =====
-- The ring at a concrete run.
use moar.Common.{List, [], ◌∷◌, ◌≡◌}
use moar.Stats.{TimeBucket, snapshot, new_stats, new_ring, entries}
use moar.Stats.Ring.{push_all, entries-push_all}

abbrev minutes : List TimeBucket
minutes =
    snapshot 60 new_stats
    ∷ snapshot 120 (record new_stats { events_saved = 3 })
    ∷ snapshot 180 (record new_stats { events_saved = 4 })
    ∷ []

entries_example : entries (push_all new_ring minutes) ≡ minutes
entries_example = entries-push_all minutes
