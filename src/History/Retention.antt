-- ===== src/History/Retention.antt =====
-- src/history/retention.ts: which entries leave the sync history.
pub mod Survivors
use mineral_obsidian_sync.Base.{
  ℕ, suc, ◌+◌, ◌*◌, String, Bool, true, false, not, ◌&&◌, ◌||◌, List, [], ◌∷◌, ◌==◌, ltb, leb,
  str_mem, str_eq, if◌then◌else◌,
}
use mineral_obsidian_sync.Base.Sorting.{sort}

-- Days.
abbrev pub sync_history_retention_days : ℕ
sync_history_retention_days = 30

abbrev pub sync_history_max_entries : ℕ
sync_history_max_entries = 500

-- Milliseconds.
abbrev pub day_ms : ℕ
day_ms = 24 * 60 * 60 * 1000

pub record HistoryEntry : Type 0 where
  pub id : String
  pub timestamp : ℕ

-- `entry.timestamp >= cutoff`
abbrev pub is_recent : (now : ℕ) → HistoryEntry → Bool
is_recent now entry = leb now (entry.timestamp + sync_history_retention_days * day_ms)

abbrev pub is_kept : (now rank : ℕ) → HistoryEntry → Bool
is_kept now rank entry = ltb rank sync_history_max_entries && is_recent now entry

-- The loop over the ordered entries.
unfoldable pub expire : (now rank : ℕ) → (seen : List String) → List HistoryEntry → List String
expire now rank seen [] = []
expire now rank seen (entry ∷ entries) =
    let drops = not (is_kept now rank entry) && not (str_mem entry.id seen) in
    let rest = expire now (suc rank) (if drops then entry.id ∷ seen else seen) entries in
    if drops then entry.id ∷ rest else rest

-- `id_before a b` is `a <= b` on texts.
module _ (id_before : String → String → Bool) where
  -- `byNewestFirst(left, right) <= 0`
  abbrev pub by_newest_first : HistoryEntry → HistoryEntry → Bool
  by_newest_first left right =
      if left.timestamp == right.timestamp
      then id_before left.id right.id
      else ltb right.timestamp left.timestamp

  unfoldable pub expired_history_ids : List HistoryEntry → (now : ℕ) → List String
  expired_history_ids entries now = expire now 0 [] (sort by_newest_first entries)
