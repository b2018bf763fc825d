-- ===== src/Tests/History.antt =====
-- The retention of the sync history at concrete entries.
use mineral_obsidian_sync.Base.{ℕ, ◌*◌, String, Bool, true, ◌≡◌, refl, List, [], ◌∷◌}
use mineral_obsidian_sync.Base.Sorting.{sort, insert_sorted}
use mineral_obsidian_sync.History.Retention.{HistoryEntry, day_ms, expire, expired_history_ids}

-- Every text may stand before every other.
abbrev any_order : String → String → Bool
any_order a b = true

abbrev old_entry : HistoryEntry
old_entry = record { id = "old"; timestamp = 5 }

abbrev new_entry : HistoryEntry
new_entry = record { id = "new"; timestamp = 31 * day_ms }

abbrev entries : List HistoryEntry
entries = old_entry ∷ new_entry ∷ old_entry ∷ []

abbrev today : ℕ
today = 32 * day_ms

history_run : expired_history_ids any_order entries today ≡ ("old" ∷ [])
unfolding expired_history_ids expire sort insert_sorted
history_run = refl
