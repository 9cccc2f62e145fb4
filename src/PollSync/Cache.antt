-- ===== src/PollSync/Cache.antt =====
-- What the cache holds after a sequence of sync options.
use goev.Prelude.{
  ℕ, ◌≡◌, refl, ap, ◌∙◌, Bool, true, false, ◌&&◌, Option, none, some, List, [], ◌∷◌, ◌==◌,
  if◌then◌else◌, Bool-cases, inl, inr,
}
use goev.PollSync.{PollSyncOptArg, poll_sync_cache, p_cache_set, p_cache_get, do_sync, sync_all}

module _ {ℓ} {V : Type ℓ} where
  -- Whether an option sets the value of an ID.
  abbrev pub sets : ℕ → PollSyncOptArg V → Bool
  sets id op = op.typ == poll_sync_cache && (op.id == id)

  -- The last value for an ID, from the end of the options.
  abbrev pub last_set : ℕ → List (PollSyncOptArg V) → Option V
  last_set id [] = none
  last_set id (op ∷ ops) = elim (last_set id ops) [
    | some v ↦ some v
    | none ↦ if sets id op then some op.value else none
  ]

  pub or_before : Option V → Option V → Option V
  or_before (some v) old = some v
  or_before none old = old

  one_set :
      (id : ℕ) (op : PollSyncOptArg V) (cache : ℕ → Option V)
      → do_sync op cache id ≡ (if sets id op then some op.value else cache id)
  unfolding do_sync p_cache_set
  one_set id op cache = elim (Bool-cases (op.typ == poll_sync_cache)) [
    | inl mine ↦ rw (mine, do_sync, p_cache_set)
    | inr other ↦ rw (other, do_sync)
  ]

  later_first :
      (o : Option V) (b : Bool) (v : V) (old : Option V)
      → or_before o (if b then some v else old)
        ≡ or_before (elim o [ some w ↦ some w | none ↦ if b then some v else none ]) old
  unfolding or_before
  later_first (some w) b v old = refl
  later_first none true v old = refl
  later_first none false v old = refl

  -- After the options, the value of an ID is the last one set for it, or the one of before.
  pub sync_all_lem :
      (id : ℕ) (ops : List (PollSyncOptArg V)) (cache : ℕ → Option V)
      → p_cache_get id (sync_all ops cache) ≡ or_before (last_set id ops) (p_cache_get id cache)
  unfolding sync_all p_cache_get or_before
  sync_all_lem id [] cache = refl
  sync_all_lem id (op ∷ ops) cache =
      sync_all_lem id ops (do_sync op cache)
      ∙ ap (or_before (last_set id ops)) (one_set id op cache)
      ∙ later_first (last_set id ops) (sets id op) op.value (cache id)
