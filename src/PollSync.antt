-- ===== src/PollSync.antt =====
-- poll_sync_opt.go: what a poller does with the sync options that it takes from its queue (Notify), and
-- the cache of epoll.go that they write. An ID is not negative.
pub mod Cache
mod Tests
use goev.Prelude.{ℕ, ◌≡◌, Bool, Option, none, some, List, [], ◌∷◌, ◌==◌, if◌then◌else◌}

-- PollSyncCache
abbrev pub poll_sync_cache : ℕ
poll_sync_cache = 1

-- pollSyncOptArg, with the fields of PollSyncCacheOpt for its `arg`.
pub record PollSyncOptArg {ℓ} (V : Type ℓ) : Type ℓ where
  pub typ : ℕ
  pub id : ℕ
  pub value : V

module _ {ℓ} {V : Type ℓ} where
  unfoldable pub p_cache_set : ℕ → V → (ℕ → Option V) → ℕ → Option V
  p_cache_set id v cache j = if id == j then some v else cache j

  unfoldable pub p_cache_get : ℕ → (ℕ → Option V) → Option V
  p_cache_get id cache = cache id

  unfoldable pub do_sync : PollSyncOptArg V → (ℕ → Option V) → ℕ → Option V
  unfolding p_cache_set
  do_sync op cache = if op.typ == poll_sync_cache then p_cache_set op.id op.value cache else cache

  -- The calls of `doSync` of OnRead, in the order of the queue.
  unfoldable pub sync_all : List (PollSyncOptArg V) → (ℕ → Option V) → ℕ → Option V
  unfolding do_sync
  sync_all [] cache = cache
  sync_all (op ∷ ops) cache = sync_all ops (do_sync op cache)
