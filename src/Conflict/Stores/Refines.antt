-- ===== src/Conflict/Stores/Refines.antt =====
-- A conflict store of src/conflict/stores.ts implements a map from channels and names to records.
use mineral_obsidian_sync.Base.{
  String, ◌&&◌, ◌≡◌, refl, Option, none, some, List, [], ◌∷◌, str_eq, str_mem, if◌then◌else◌, arith,
  eq_iff,
}
use mineral_obsidian_sync.Conflict.Stores.{Keyed, get, put, remove_all}

-- A call that changes the store.
pub data Call (R : Type 0) : Type 0 where
  puts : R → Call R
  removes : (channel : String) → (names : List String) → Call R

-- What a store promises.
abbrev pub Contents : Type 0 → Type 0
Contents R = (channel name : String) → Option R

module _ {R : Type 0} (k : Keyed R) where
  abbrev pub view : List R → Contents R
  view rs channel name = get k channel name rs

  -- A new record replaces the one of its channel and name, and no other.
  abbrev pub with_record : R → Contents R → Contents R
  with_record new f channel name =
      if str_eq (k.channel_of new) channel && str_eq (k.name_of new) name
      then some new
      else f channel name

  -- Only the named records of the channel are gone.
  abbrev pub without : (from : String) → (names : List String) → Contents R → Contents R
  without from names f channel name =
      if str_eq from channel && str_mem name names then none else f channel name

  abbrev pub call : Call R → List R → List R
  call (puts r) rs = put k r rs
  call (removes channel names) rs = remove_all k channel names rs

  abbrev pub promised : Call R → Contents R → Contents R
  promised (puts r) f = with_record r f
  promised (removes channel names) f = without channel names f

  unfoldable pub run : List (Call R) → List R → List R
  run [] rs = rs
  run (c ∷ cs) rs = run cs (call c rs)

  unfoldable pub run_promised : List (Call R) → Contents R → Contents R
  run_promised [] f = f
  run_promised (c ∷ cs) f = run_promised cs (promised c f)

  pub get-put :
      (new : R) (rs : List R) (channel name : String)
      → get k channel name (put k new rs) ≡ with_record new (view rs) channel name
  unfolding get put
  get-put new [] channel name = refl
  get-put new (r ∷ rs) channel name = ground (
    arith,
    get-put new rs channel name,
    eq_iff (k.channel_of r) channel,
    eq_iff (k.channel_of r) (k.channel_of new),
    eq_iff (k.channel_of new) channel,
    eq_iff (k.name_of r) name,
    eq_iff (k.name_of r) (k.name_of new),
    eq_iff (k.name_of new) name,
  )
