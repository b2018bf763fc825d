-- ===== src/Scheduler/Cycle/Batches.antt =====
-- Which operations src/scheduler/scheduler.ts lets overlap.
use mineral_obsidian_sync.Base.{
  ℕ, ◌+◌, ◌≤◌, Bool, true, false, not, ◌&&◌, ◌≡◌, refl, ap, ◌∙◌, List, [], ◌∷◌, ◌++◌, All, any,
  length, length-append, ltb, str_eq, if◌then◌else◌, arith, max,
}
use mineral_obsidian_sync.Sync.Types.{SyncOperation, op_key}
use mineral_obsidian_sync.Scheduler.Cycle.{fill_batch, next_batch, is_delete_remote}

-- No key of the list is the key of an operation before it.
abbrev pub DistinctKeys : List SyncOperation → List SyncOperation → Type 0
DistinctKeys before [] = Unit
DistinctKeys before (op ∷ ops) =
    (any (λ b. str_eq (op_key b) (op_key op)) before ≡ false)
    × DistinctKeys (before ++ (op ∷ [])) ops

append_assoc :
    (xs : List SyncOperation) (op : SyncOperation) (ys : List SyncOperation)
    → (xs ++ (op ∷ [])) ++ ys ≡ xs ++ (op ∷ ys)
append_assoc [] op ys = refl
append_assoc (x ∷ xs) op ys = ap (λ t. x ∷ t) (append_assoc xs op ys)

-- The batch: what `more` adds to `batch`, and what stays.
pub record Filled (limit : ℕ) (batch ops : List SyncOperation)
    (r : List SyncOperation × List SyncOperation) : Type 0 where
  pub added : List SyncOperation
  pub whole : r.0 ≡ batch ++ added
  pub order : added ++ r.1 ≡ ops
  pub deletions : All (λ op. is_delete_remote op ≡ true) added
  pub distinct : DistinctKeys batch added
  pub bounded : length batch + length added ≤ max limit (length batch)

append_nil : (xs : List SyncOperation) → xs ≡ xs ++ []
append_nil [] = refl
append_nil (x ∷ xs) = ap (λ t. x ∷ t) (append_nil xs)

nothing : (limit : ℕ) (batch ops : List SyncOperation) → Filled limit batch ops (batch, ops)
nothing limit batch ops = record {
  added = [];
  whole = append_nil batch;
  order = refl;
  deletions = tt;
  distinct = tt;
  bounded = omega arith;
}

fill-Filled :
    (limit : ℕ) (batch ops : List SyncOperation)
    → Filled limit batch ops (fill_batch limit batch ops)
unfolding fill_batch
fill-Filled limit batch [] = nothing limit batch []
fill-Filled limit batch (op ∷ rest) =
    chosen (ltb (length batch) limit) (is_delete_remote op)
      (any (λ b. str_eq (op_key b) (op_key op)) batch) refl refl refl
      (fill-Filled limit (batch ++ (op ∷ [])) rest)
  where
    chosen :
        (l d a : Bool)
        → ltb (length batch) limit ≡ l
        → is_delete_remote op ≡ d
        → any (λ b. str_eq (op_key b) (op_key op)) batch ≡ a
        → Filled limit (batch ++ (op ∷ [])) rest (fill_batch limit (batch ++ (op ∷ [])) rest)
        → Filled limit batch (op ∷ rest) (
            if l && d && not a
            then fill_batch limit (batch ++ (op ∷ [])) rest
            else (batch, op ∷ rest))
    chosen true true false x y z f = record {
      added = op ∷ f.added;
      whole = f.whole ∙ append_assoc batch op f.added;
      order = ap (λ t. op ∷ t) f.order;
      deletions = (y, f.deletions);
      distinct = (z, f.distinct);
      bounded = ground (arith, x, f.bounded, length-append batch (op ∷ []));
    }
    chosen false d a x y z f = nothing limit batch (op ∷ rest)
    chosen true false a x y z f = nothing limit batch (op ∷ rest)
    chosen true true true x y z f = nothing limit batch (op ∷ rest)

-- The next batch takes operations from the front of the plan, in their order. Whatever overlaps with
-- its first operation is an ordinary remote deletion of another key, at most as many as the limit, and
-- nothing overlaps with a first operation that is no ordinary remote deletion.
pub next_batch-Filled :
    (limit : ℕ) (op : SyncOperation) (rest : List SyncOperation)
    → Filled limit (op ∷ []) rest (next_batch limit op rest)
      × (is_delete_remote op ≡ false → next_batch limit op rest ≡ (op ∷ [], rest))
unfolding next_batch
next_batch-Filled limit op rest = chosen (is_delete_remote op)
  where
    chosen :
        (b : Bool)
        → Filled limit
            (op ∷ [])
            rest
            (if b then fill_batch limit (op ∷ []) rest else (op ∷ [], rest))
          × (b ≡ false
              → (if b then fill_batch limit (op ∷ []) rest else (op ∷ [], rest)) ≡ (op ∷ [], rest))
    chosen true = (fill-Filled limit (op ∷ []) rest, λ e. ground (arith, e))
    chosen false = (nothing limit (op ∷ []) rest, λ e. refl)
