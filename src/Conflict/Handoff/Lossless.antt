-- ===== src/Conflict/Handoff/Lossless.antt =====
-- What a handoff of src/conflict/handoff.ts writes, and where its split of the file stands.
use mineral_obsidian_sync.Base.{ℕ, ◌+◌, ◌≤◌, ◌≡◌, ◌++◌, length, drop, ◌⊎◌}
use mineral_obsidian_sync.Conflict.Units.{Units, byte_length}
use mineral_obsidian_sync.Conflict.Handoff.{Region, RegionSplit, handoff_max_delta_bytes}

-- A text that stands between a shared head and tail, with a middle of at most the given length.
pub record Framed (prefix suffix text : Units) (size : ℕ) : Type 0 where
  pub middle : Units
  pub whole : text ≡ prefix ++ (middle ++ suffix)
  pub within : length middle ≤ size

-- A head and tail that all three texts share, by which the merged text was put together: the region of
-- the ancestor with both additions behind it, within the limits of a handoff.
pub record Assembled (base here there merged : Units) : Type 0 where
  pub hunk : Region
  pub split : RegionSplit
  pub of_base : Framed split.prefix split.suffix base (length hunk.base)
  pub of_here : Framed split.prefix split.suffix here (length hunk.here)
  pub of_there : Framed split.prefix split.suffix there (length hunk.there)
  pub here_side : hunk.here ≡ hunk.base ++ split.here_extra
  pub there_side : hunk.there ≡ hunk.base ++ split.there_extra
  pub both :
      (merged
        ≡ split.prefix ++ (hunk.base ++ ((split.here_extra ++ split.there_extra) ++ split.suffix)))
      ⊎ (merged
          ≡ split.prefix
            ++ (hunk.base ++ ((split.there_extra ++ split.here_extra) ++ split.suffix)))
  pub small : byte_length split.here_extra + byte_length split.there_extra ≤ handoff_max_delta_bytes

record Splits (base here there : Units) (r : Region) (s : RegionSplit) : Type 0 where
  of_base : Framed s.prefix s.suffix base (length r.base)
  of_here : Framed s.prefix s.suffix here (length r.here)
  of_there : Framed s.prefix s.suffix there (length r.there)
  here_extra : s.here_extra ≡ drop (length r.base) r.here
  there_extra : s.there_extra ≡ drop (length r.base) r.there

record Extends (base here there : Units) (r : Region) (s : RegionSplit) : Type 0 where
  frames : Splits base here there r s
  here_side : r.here ≡ r.base ++ s.here_extra
  there_side : r.there ≡ r.base ++ s.there_extra
