-- ===== src/Local/Reading/Stable.antt =====
-- What the reads of src/local/read-local.ts tell of the file.
use mineral_obsidian_sync.Base.{
  ap, arith, String, Bool, true, false, ◌≡◌, refl, Option, none, some, ◌∷◌,
}
use mineral_obsidian_sync.Sync.Types.{LocalEntry}
use mineral_obsidian_sync.Remote.Client.{Try, ok, Bytes}
use mineral_obsidian_sync.Local.Reading.{
  matches, read_unchanged, read_stable_local_bytes, read_version, read_current_stable_local_bytes,
}
use mineral_obsidian_sync.Executor.Effects.{Env, Event, History, Stat}
use mineral_obsidian_sync.Executor.Triples.{
  Keeps, Always, Anything, bind-Keeps, if-Keeps, ret-Keeps, throw-Keeps,
}
use mineral_obsidian_sync.Executor.Calls.{file_at-Keeps, stat-Keeps, read_binary-Keeps}

-- The last three calls read the bytes `b` of the file between two looks at the version `v` of it.
pub record ReadStably (v : LocalEntry) (b : Bytes) (h : History) : Type 0 where
  pub first : Option Stat
  pub second : Option Stat
  pub past : History
  pub calls :
      h
      ≡ Event.stat v.key (ok second)
        ∷ Event.read_binary v.key (ok b)
        ∷ Event.stat v.key (ok first)
        ∷ past
  pub before : matches first v ≡ true
  pub after : matches second v ≡ true

-- The rule lets the Vault be read.
pub record ReadsAllowed (P : Event → History → Type 0) : Type 0 where
  pub file_at : (k : String) (a : Bool) (h : History) → P (Event.file_at k a) h
  pub stat : (k : String) (a : Try (Option Stat)) (h : History) → P (Event.stat k a) h
  pub read_binary : (k : String) (a : Try Bytes) (h : History) → P (Event.read_binary k a) h

module _ (E : Env) {P : Event → History → Type 0} (allowed : ReadsAllowed P) where
  -- The last call saw the version `s`.
  abbrev Saw : String → Option Stat → History → Type 0
  Saw key s h = (past : History) × (h ≡ Event.stat key (ok s) ∷ past)

  abbrev Read : String → Option Stat → Bytes → History → Type 0
  Read key s b h =
      (past : History) × (h ≡ Event.read_binary key (ok b) ∷ Event.stat key (ok s) ∷ past)

  abbrev ReadSeen : String → Option Stat → Bytes → Option Stat → History → Type 0
  ReadSeen key s b s' h =
      (past : History) × (h
        ≡ Event.stat key (ok s') ∷ Event.read_binary key (ok b) ∷ Event.stat key (ok s) ∷ past)

  read-Keeps :
      (v : LocalEntry) (s : Option Stat)
      → matches s v ≡ true
      → Keeps P (Saw v.key s) (read_unchanged E v) (ReadStably v)
  unfolding read_unchanged
  read-Keeps v s m =
      bind-Keeps {Q = Read v.key s}
        (read_binary-Keeps E v.key (λ r h p. allowed.read_binary _ _ _)
          (λ b h (past, e). (past, ap (λ t. Event.read_binary v.key (ok b) ∷ t) e)))
        (λ b.
          bind-Keeps {Q = ReadSeen v.key s b}
            (stat-Keeps E v.key (λ r h p. allowed.stat _ _ _)
              (λ a h (past, e). (past, ap (λ t. Event.stat v.key (ok a) ∷ t) e)))
            (λ after.
              if-Keeps (matches after v)
                (λ e. ret-Keeps _ (λ h (past, eq). record {
                  first = s;
                  second = after;
                  past = past;
                  calls = eq;
                  before = m;
                  after = e;
                }))
                (λ e. throw-Keeps _)))

  pub read_stable-Keeps :
      (v : LocalEntry) → Keeps P Always (read_stable_local_bytes E v) (ReadStably v)
  unfolding read_stable_local_bytes
  read_stable-Keeps v =
      bind-Keeps {Q = Anything}
        (file_at-Keeps E v.key (λ a h p. allowed.file_at _ _ _) (λ a h p. tt))
        (λ file.
          if-Keeps file
            (λ _.
              bind-Keeps {Q = Saw v.key}
                (stat-Keeps E v.key (λ r h p. allowed.stat _ _ _) (λ a h p. (h, refl)))
                (λ s. if-Keeps (matches s v) (λ m. read-Keeps v s m) (λ _. throw-Keeps _)))
            (λ _. throw-Keeps _))

  abbrev version_at : String → Stat → LocalEntry
  version_at key s = record { key = key; size = s.size; mtime = s.mtime }

  matches-version_at : (key : String) (s : Stat) → matches (some s) (version_at key s) ≡ true
  unfolding matches
  matches-version_at key s = ground arith

  version-Keeps :
      (key : String) (file : Bool) (s : Option Stat)
      → Keeps P (Saw key s) (read_version E key file s) (λ (b, v) h. ReadStably v b h)
  unfolding read_version
  version-Keeps key file none = throw-Keeps _
  version-Keeps key false (some s) = throw-Keeps _
  version-Keeps key true (some s) =
      bind-Keeps {Q = Read key (some s)}
        (read_binary-Keeps E key (λ r h p. allowed.read_binary _ _ _)
          (λ b h (past, e). (past, ap (λ t. Event.read_binary key (ok b) ∷ t) e)))
        (λ b.
          bind-Keeps {Q = ReadSeen key (some s) b}
            (stat-Keeps E key (λ r h p. allowed.stat _ _ _)
              (λ a h (past, e). (past, ap (λ t. Event.stat key (ok a) ∷ t) e)))
            (λ after.
              if-Keeps (matches after (version_at key s))
                (λ e. ret-Keeps _ (λ h (past, eq). record {
                  first = some s;
                  second = after;
                  past = past;
                  calls = eq;
                  before = matches-version_at key s;
                  after = e;
                }))
                (λ e. throw-Keeps _)))

  pub read_current-Keeps :
      (key : String)
      → Keeps P Always (read_current_stable_local_bytes E key) (λ (b, v) h. ReadStably v b h)
  unfolding read_current_stable_local_bytes
  read_current-Keeps key =
      bind-Keeps {Q = Anything} (file_at-Keeps E key (λ a h p. allowed.file_at _ _ _) (λ a h p. tt))
        (λ file.
          bind-Keeps {Q = Saw key}
            (stat-Keeps E key (λ r h p. allowed.stat _ _ _) (λ a h p. (h, refl)))
            (λ s. version-Keeps key file s))
