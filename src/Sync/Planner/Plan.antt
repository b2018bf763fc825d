-- ===== src/Sync/Planner/Plan.antt =====
-- The whole plan of src/sync/planner.ts: `buildSyncPlan` over the maps.
use mineral_obsidian_sync.Base.{
  str_mem-append, String, Bool, false, ◌≡◌, refl, Option, none, some, arith, List, [], ◌∷◌, ◌++◌,
  filter_map, str_mem, NodupText, map, sym, Option-cases, inl, inr, ◌∙◌, eq_iff, str_eq, Bool-cases,
  if◌then◌else◌,
}
use mineral_obsidian_sync.Base.Maps.{Map, lookup, keys, keys-lookup}
use mineral_obsidian_sync.Base.Sorting.{
  distinct-NodupText, sort-NodupText, str_mem-sort, str_mem-distinct,
}
use mineral_obsidian_sync.Sync.Types.{LocalEntry, RemoteEntry, PreviousEntry, SyncOperation, op_key}
use mineral_obsidian_sync.Sync.Planner.{ResolutionProposal, plan_key, build_sync_plan, known_keys}
use mineral_obsidian_sync.Sync.Planner.Safety.{Justified, plan_key-JustifiedIfAny}

-- The operation that a plan holds for a key.
abbrev pub find_op : String → List SyncOperation → Option SyncOperation
find_op k [] = none
find_op k (op ∷ ops) = if str_eq (op_key op) k then some op else find_op k ops

module _ (f : String → Option SyncOperation)
    (named : (k : String) (op : SyncOperation) → f k ≡ some op → op_key op ≡ k) where
  find_op-filter_map :
      (k : String) (ks : List String)
      → find_op k (filter_map f ks) ≡ (if str_mem k ks then f k else none)
  find_op-filter_map k [] = refl
  find_op-filter_map k (j ∷ ks) = elim (Option-cases (f j)) [
    | inl e ↦ rw (e, filter_map) (ground (arith, find_op-filter_map k ks, eq_iff j k))
    | inr (op, e) ↦
        rw (e, filter_map)
          (ground (arith, find_op-filter_map k ks, eq_iff j k, eq_iff (op_key op) k, named j op e))
  ]

  str_mem-filter_map :
      (k : String) (ks : List String)
      → str_mem k ks ≡ false
      → str_mem k (map op_key (filter_map f ks)) ≡ false
  str_mem-filter_map k [] h = refl
  str_mem-filter_map k (j ∷ ks) h = elim (Option-cases (f j)) [
    | inl e ↦ rw (e, filter_map) (ground (arith, str_mem-filter_map k ks))
    | inr (op, e) ↦
        rw (e, filter_map)
          (ground (arith, str_mem-filter_map k ks, eq_iff j k, eq_iff (op_key op) k, named j op e))
  ]

  filter_map-NodupText :
      (ks : List String) → NodupText ks → NodupText (map op_key (filter_map f ks))
  filter_map-NodupText [] n = tt
  filter_map-NodupText (j ∷ ks) (h, n) = elim (Option-cases (f j)) [
    | inl e ↦ rw (e, filter_map) (filter_map-NodupText ks n)
    | inr (op, e) ↦
        rw (e, filter_map)
          (rw (named j op e) (str_mem-filter_map j ks h), filter_map-NodupText ks n)
  ]

op_key-plan_key :
    (k : String) (here : Option LocalEntry) (there : Option RemoteEntry)
    (before : Option PreviousEntry) (p : Option ResolutionProposal) (op : SyncOperation)
    → plan_key k here there before p ≡ some op
    → op_key op ≡ k
op_key-plan_key k here there before p op e =
    (rw e at (plan_key-JustifiedIfAny k here there before p)).0

module _ (before : String → String → Bool) (l : Map LocalEntry) (r : Map RemoteEntry)
    (p : Map PreviousEntry) (resolutions : Map ResolutionProposal) where
  unknown-eq-none :
      (k : String)
      → str_mem k (known_keys l r p) ≡ false
      → plan_key k (lookup k l) (lookup k r) (lookup k p) (lookup k resolutions) ≡ none
  unfolding plan_key
  unknown-eq-none k h =
      let (in_l, in_r, in_p) = three (keys l) (keys r) (keys p) h in
      rw (keys-lookup k l in_l, keys-lookup k r in_r, keys-lookup k p in_p)
    where
      three :
          (xs ys zs : List String)
          → str_mem k (xs ++ ys ++ zs) ≡ false
          → (str_mem k xs ≡ false) × (str_mem k ys ≡ false) × (str_mem k zs ≡ false)
      three xs ys zs h = ground (arith, str_mem-append k (xs ++ ys) zs, str_mem-append k xs ys)

  pub find_op-build_sync_plan :
      (k : String)
      → find_op k (build_sync_plan before l r p resolutions)
        ≡ plan_key k (lookup k l) (lookup k r) (lookup k p) (lookup k resolutions)
  unfolding build_sync_plan
  find_op-build_sync_plan k =
      rw (find_op-filter_map _ (λ k op e. op_key-plan_key k _ _ _ _ op e) k _)
        (elim (Bool-cases (str_mem k (known_keys l r p))) [
          | inl e ↦ rw (str_mem-sort before k _, str_mem-distinct k _) (rw e refl)
          | inr e ↦
              rw (str_mem-sort before k _, str_mem-distinct k _) (rw e (sym (unknown-eq-none k e)))
        ])

  -- No key has two operations in one plan.
  pub build_sync_plan-NodupText : NodupText (map op_key (build_sync_plan before l r p resolutions))
  unfolding build_sync_plan
  build_sync_plan-NodupText =
      filter_map-NodupText _ (λ k op e. op_key-plan_key k _ _ _ _ op e) _
        (sort-NodupText before _ (distinct-NodupText _))

  -- Every operation of a plan is justified by what was observed of its key: a deletion on either side
  -- only where the other side's absence and an unchanged baseline are given, a transfer only over the
  -- version that was observed, a resolution only where both sides disagree.
  pub build_sync_plan-Justified :
      (k : String) (op : SyncOperation)
      → find_op k (build_sync_plan before l r p resolutions) ≡ some op
      → Justified op (lookup k l) (lookup k r) (lookup k p)
  build_sync_plan-Justified k op e =
      (rw (sym (find_op-build_sync_plan k) ∙ e) at
        (plan_key-JustifiedIfAny k (lookup k l) (lookup k r) (lookup k p) (lookup k resolutions))).1
