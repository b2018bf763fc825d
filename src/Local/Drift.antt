-- ===== src/Local/Drift.antt =====
-- src/scheduler/mobile-local-drift.ts: the files that changed between two looks at the Vault; and the
-- decisions of src/local/android-editor-save.ts on text that an editor holds.
use mineral_obsidian_sync.Base.{
  String, Bool, true, false, not, ◌&&◌, ◌||◌, ◌≡◌, inl, inr, refl, ◌∙◌, Option, none, some, List,
  [], ◌∷◌, ◌++◌, ◌==◌, str_eq, str_mem, str_mem-append, NodupText, is_some, eq_iff, Bool-cases,
  if◌then◌else◌, arith,
}
use mineral_obsidian_sync.Base.Maps.{Map, lookup, keys, keys-lookup}
use mineral_obsidian_sync.Base.Sorting.{distinct, str_mem-distinct}
use mineral_obsidian_sync.Sync.Types.{LocalEntry}
use mineral_obsidian_sync.Executor.Effects.{Stat}

abbrev pub differs : Option LocalEntry → LocalEntry → Bool
differs none entry = true
differs (some prior) entry = not (prior.size == entry.size) || not (prior.mtime == entry.mtime)

-- The first loop, then the second.
unfoldable pub edited_keys : (previous current : Map LocalEntry) → List String
unfolding lookup
edited_keys previous [] = []
edited_keys previous ((key, entry) ∷ rest) =
    let more = edited_keys previous rest in
    if differs (lookup key previous) entry then key ∷ more else more

unfoldable pub removed_keys : (current previous : Map LocalEntry) → List String
unfolding lookup
removed_keys current [] = []
removed_keys current ((key, _) ∷ rest) =
    let more = removed_keys current rest in
    if is_some (lookup key current) then more else key ∷ more

unfoldable pub changed_local_keys : (previous current : Map LocalEntry) → List String
unfolding edited_keys removed_keys distinct
changed_local_keys previous current =
    distinct (edited_keys previous current ++ removed_keys current previous)

pub data FlushAction : Type 0 where
  save retry_later mark_only : FlushAction

unfoldable pub flush_action : (hidden has_view force : Bool) → FlushAction
flush_action hidden has_view force =
    if hidden && not force then retry_later else if not has_view then mark_only else save

unfoldable pub write_changed_file : (before after : Option Stat) → Bool
write_changed_file none after = true
write_changed_file (some b) none = true
write_changed_file (some b) (some a) = not (b.size == a.size) || not (b.mtime == a.mtime)

unfoldable pub is_own_write : (recorded observed : Option Stat) → Bool
is_own_write none observed = false
is_own_write (some r) none = false
is_own_write (some r) (some o) = (r.size == o.size) && (r.mtime == o.mtime)

-- Whether the two looks show different versions of a path, or one of them none.
abbrev pub drifted : Option LocalEntry → Option LocalEntry → Bool
drifted none none = false
drifted none (some entry) = true
drifted (some prior) none = true
drifted (some prior) (some entry) =
    not (prior.size == entry.size) || not (prior.mtime == entry.mtime)

edited_if : (previous : Map LocalEntry) → String → Option LocalEntry → Bool
edited_if previous key none = false
edited_if previous key (some entry) = differs (lookup key previous) entry

str_mem-edited_keys :
    (key : String) (previous current : Map LocalEntry)
    → NodupText (keys current)
    → str_mem key (edited_keys previous current) ≡ edited_if previous key (lookup key current)
unfolding edited_keys lookup keys edited_if
str_mem-edited_keys key previous [] h = refl
str_mem-edited_keys key previous ((name, entry) ∷ rest) (h, hs) =
    elim (Bool-cases (str_eq name key)) [
      | inl same ↦ ground (
        arith,
        same,
        (eq_iff name key).0 same,
        absent key ((eq_iff name key).0 same),
        str_mem-edited_keys key previous rest hs,
      )
      | inr other ↦ ground (arith, other, str_mem-edited_keys key previous rest hs)
    ]
  where
    absent : (k : String) → name ≡ k → lookup k rest ≡ none
    absent k e = keys-lookup k rest (cc (e, h))

str_mem-removed_keys :
    (key : String) (current previous : Map LocalEntry)
    → NodupText (keys previous)
    → str_mem key (removed_keys current previous)
      ≡ (is_some (lookup key previous) && not (is_some (lookup key current)))
unfolding removed_keys lookup keys
str_mem-removed_keys key current [] h = refl
str_mem-removed_keys key current ((name, entry) ∷ rest) (h, hs) =
    elim (Bool-cases (str_eq name key)) [
      | inl same ↦ ground (
        arith,
        same,
        (eq_iff name key).0 same,
        absent key ((eq_iff name key).0 same),
        str_mem-removed_keys key current rest hs,
      )
      | inr other ↦ ground (arith, other, str_mem-removed_keys key current rest hs)
    ]
  where
    absent : (k : String) → name ≡ k → lookup k rest ≡ none
    absent k e = keys-lookup k rest (cc (e, h))

-- A path is reported exactly if the two looks show different versions of it, or one of them shows none,
-- where no look has a path twice.
pub changed_local_keys-exact :
    (previous current : Map LocalEntry) (key : String)
    → NodupText (keys previous)
    → NodupText (keys current)
    → str_mem key (changed_local_keys previous current)
      ≡ drifted (lookup key previous) (lookup key current)
unfolding changed_local_keys edited_if
changed_local_keys-exact previous current key p c =
    str_mem-distinct key (edited_keys previous current ++ removed_keys current previous)
    ∙ str_mem-append key (edited_keys previous current) (removed_keys current previous)
    ∙ rw (str_mem-edited_keys key previous current c, str_mem-removed_keys key current previous p)
        (either (lookup key previous) (lookup key current) refl)
  where
    either :
        (a b : Option LocalEntry)
        → lookup key previous ≡ a
        → (edited_if previous key b || (is_some a && not (is_some b))) ≡ drifted a b
    either none none e = ground (arith, e)
    either none (some y) e = ground (arith, e)
    either (some x) none e = ground (arith, e)
    either (some x) (some y) e = ground (arith, e)
