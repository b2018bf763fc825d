-- ===== src/History/Retention/Survivors.antt =====
-- What `expiredHistoryIds` of src/history/retention.ts leaves in the history.
use mineral_obsidian_sync.Base.{
  ℕ, suc, ◌+◌, ◌≤◌, max, String, Bool, true, false, not, ◌&&◌, ◌||◌, ◌≡◌, List, [], ◌∷◌, str_mem,
  str_eq, keep, length, All, NodupText, arith, eq_iff,
}
use mineral_obsidian_sync.Base.Sorting.{sort}
use mineral_obsidian_sync.History.Retention.{
  HistoryEntry, is_kept, is_recent, expire, expired_history_ids, by_newest_first,
  sync_history_max_entries,
}

-- Whether an entry with the identifier is too old, or stands too far back, from a rank on.
abbrev pub is_out : (id : String) (now rank : ℕ) → List HistoryEntry → Bool
is_out id now rank [] = false
is_out id now rank (entry ∷ entries) =
    (str_eq entry.id id && not (is_kept now rank entry)) || is_out id now (suc rank) entries

str_mem-expire :
    (id : String) (now rank : ℕ) (seen : List String) (entries : List HistoryEntry)
    → str_mem id (expire now rank seen entries)
      ≡ (not (str_mem id seen) && is_out id now rank entries)
unfolding expire
str_mem-expire id now rank seen [] = ground arith
str_mem-expire id now rank seen (x ∷ xs) = ground (
  arith,
  str_mem-expire id now (suc rank) seen xs,
  str_mem-expire id now (suc rank) (x.id ∷ seen) xs,
  eq_iff x.id id,
)

expire-NodupText :
    (now rank : ℕ) (seen : List String) (entries : List HistoryEntry)
    → NodupText (expire now rank seen entries)
unfolding expire
expire-NodupText now rank seen [] = tt
expire-NodupText now rank seen (x ∷ xs) = ground (
  arith,
  expire-NodupText now (suc rank) seen xs,
  expire-NodupText now (suc rank) (x.id ∷ seen) xs,
  str_mem-expire x.id now (suc rank) (x.id ∷ seen) xs,
  eq_iff x.id x.id,
)

abbrev pub survivors_of : List String → List HistoryEntry → List HistoryEntry
survivors_of ids entries = keep (λ entry. not (str_mem entry.id ids)) entries

-- Entries that the loop keeps from a rank on, if the identifiers `ids` are those it drops.
survivors-length :
    (ids : List String) (now rank : ℕ) (entries : List HistoryEntry)
    → ((id : String) → is_out id now rank entries ≡ true → str_mem id ids ≡ true)
    → rank + length (survivors_of ids entries) ≤ max rank sync_history_max_entries
survivors-length ids now rank [] h = omega arith
survivors-length ids now rank (x ∷ xs) h = ground (
  arith,
  survivors-length ids now (suc rank) xs (λ id e. h id (ground (arith, e))),
  h x.id,
  eq_iff x.id x.id,
)

survivors-recent :
    (ids : List String) (now rank : ℕ) (entries : List HistoryEntry)
    → ((id : String) → is_out id now rank entries ≡ true → str_mem id ids ≡ true)
    → All (λ entry. is_recent now entry ≡ true) (survivors_of ids entries)
survivors-recent ids now rank [] h = tt
survivors-recent ids now rank (x ∷ xs) h = ground (
  arith,
  survivors-recent ids now (suc rank) xs (λ id e. h id (ground (arith, e))),
  h x.id,
  eq_iff x.id x.id,
)

module _ (id_before : String → String → Bool) (entries : List HistoryEntry) (now : ℕ) where
  pub expired_history_ids-exact :
      ((id : String)
        → str_mem id (expired_history_ids id_before entries now)
          ≡ is_out id now 0 (sort (by_newest_first id_before) entries))
      × NodupText (expired_history_ids id_before entries now)
  unfolding expired_history_ids
  expired_history_ids-exact = ((λ id. str_mem-expire id now 0 [] _), expire-NodupText now 0 [] _)

  is_out-expired :
      (id : String)
      → is_out id now 0 (sort (by_newest_first id_before) entries) ≡ true
      → str_mem id (expired_history_ids id_before entries now) ≡ true
  is_out-expired id e = rw (expired_history_ids-exact.0 id) e

  -- Once the expired identifiers are deleted, the list newest first has at most 500 entries, none of
  -- them older than 30 days.
  pub expired_history_ids-survivors :
      (length (
          survivors_of
            (expired_history_ids id_before entries now)
            (sort (by_newest_first id_before) entries))
        ≤ sync_history_max_entries)
      × All
          (λ entry. is_recent now entry ≡ true)
          (survivors_of
            (expired_history_ids id_before entries now)
            (sort (by_newest_first id_before) entries))
  expired_history_ids-survivors = (
    omega
        (arith, survivors-length _ now 0 (sort (by_newest_first id_before) entries) is_out-expired),
    survivors-recent _ now 0 _ is_out-expired,
  )
