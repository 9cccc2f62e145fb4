-- ===== src/BufPool.antt =====
-- bufpool.go: byte slices in size classes, each class over a `sync.Pool`.
-- A slice is its length and its capacity. A size is not negative: a negative one takes the branch of 0.
-- The atomic counters are `int32`, written as bit patterns below 2 ^ 32.
pub mod Classes
pub mod Alloc
pub mod Free
pub mod Adjust
pub mod Tests
use goev.Prelude.{
  ℕ, zero, suc, ◌+◌, ◌-◌, ◌*◌, ◌/◌, ◌%◌, ◌^◌, ◌≡◌, Bool, ◌||◌, Option, none, some, List, [], ◌∷◌,
  ltb, leb, ◌==◌, if◌then◌else◌, Run, ok, panic, ◌>>=◌,
}
use mathlib.Core.List.{Mem}

pub record Slice : Type 0 where
  pub len : ℕ
  pub cap : ℕ

-- `make([]byte, n)`
abbrev pub make : ℕ → Slice
make n = record { len = n; cap = n }

-- `bf[:n]`
abbrev pub reslice : Slice → ℕ → Run Slice
reslice bf n = if ltb bf.cap n then panic else ok (record bf { len = n })

-- The choice that `sync.Pool.Get` makes: an item of the pool with those left, or none. It gives out
-- only what was put in.
pub record SyncPool : Type 0 where
  pub pick : List Slice → Option (Slice × List Slice)
  pub pick_from :
      (p r : List Slice) (b : Slice) → pick p ≡ some (b, r) → (x : Slice) → Mem x (b ∷ r) → Mem x p

-- buffPool. `pool` is what was put and not yet taken out; `New` makes a slice of `size` bytes.
pub record BuffPool : Type 0 where
  pub disabled : ℕ
  pub alloc_times : ℕ
  pub size : ℕ
  pub pool : List Slice

abbrev pub buf_pool_max_mbytes : ℕ
buf_pool_max_mbytes = 16

-- `a < bufPoolActiveTimes` on `int32`, of which 5 is the limit.
abbrev pub is_inactive : ℕ → Bool
is_inactive times = ltb times 5 || leb (2 ^ 31) times

abbrev pub init_pool : ℕ → BuffPool
init_pool size = record { disabled = 0; alloc_times = 0; size = size; pool = [] }

module _ (sync : SyncPool) where
  pub take_slice : BuffPool → Slice × BuffPool
  take_slice bp = elim (sync.pick bp.pool) [
    | some (bf, rest) ↦ (bf, record bp { pool = rest })
    | none ↦ (make bp.size, bp)
  ]

  unfoldable pub alloc : ℕ → BuffPool → Run (Slice × BuffPool)
  unfolding take_slice
  alloc s bp =
      let counted : BuffPool = record bp { alloc_times = (bp.alloc_times + 1) % 2 ^ 32 } in
      let (bf, taken) = take_slice counted in
      let cut : Run (Slice × BuffPool) = reslice bf s >>= λ b. ok (b, taken) in
      if counted.disabled == 1
      then ok (make s, counted)
      else if s == counted.size
      then ok (bf, taken)
      else cut

unfoldable pub free : ℕ → Slice → BuffPool → Run BuffPool
free c bf bp =
    let full = reslice bf c >>= λ b. ok (record bp { pool = b ∷ bp.pool }) in
    if c == bp.size
    then (if ltb bf.len c then full else ok (record bp { pool = bf ∷ bp.pool }))
    else ok bp

unfoldable pub adjust : BuffPool → BuffPool
adjust bp =
    let cleared : BuffPool = record bp { alloc_times = 0 } in
    if is_inactive bp.alloc_times
    then (if bp.disabled == 0 then record cleared { disabled = 1 } else cleared)
    else (if bp.disabled == 1 then record cleared { disabled = 0 } else cleared)

-- The three arrays of pools, by index.
pub record Pools : Type 0 where
  pub bt_pool : ℕ → BuffPool
  pub kb_pool : ℕ → BuffPool
  pub mb_pool : ℕ → BuffPool

-- init, without the goroutine that calls `buffPoolAdjust` every two minutes
unfoldable pub init_pools : Pools
init_pools = record {
  bt_pool = λ i. init_pool ((i + 1) * 128);
  kb_pool = λ i. init_pool ((i + 1) * 1024);
  mb_pool = λ i. init_pool ((i + 1) * 1024 * 1024);
}

abbrev pub update_pool : (ℕ → BuffPool) → ℕ → BuffPool → ℕ → BuffPool
update_pool f i bp j = if i == j then bp else f j

-- An access at the index `slot - 1` of an array of `n` pools, which panics out of range.
abbrev pub at_index {ℓ} : {A : Type ℓ} → ℕ → ℕ → (ℕ → Run A) → Run A
at_index n slot use_pool = if slot == 0 || ltb n slot then panic else use_pool (slot - 1)

-- `len(btPool)`, `len(kbPool)`, `len(mbPool)`
abbrev pub bt_len : ℕ
bt_len = 7

abbrev pub kb_len : ℕ
kb_len = 1023

abbrev pub mb_len : ℕ
mb_len = buf_pool_max_mbytes

unfoldable pub bmalloc : SyncPool → ℕ → Pools → Run (Slice × Pools)
bmalloc sync s p =
    let bt = at_index bt_len ((s + 127) / 128) (λ i. alloc sync s (p.bt_pool i) >>= λ (b, bp).
    ok (b, record p { bt_pool = update_pool p.bt_pool i bp })) in
    let kb = at_index kb_len ((s + 1023) / 1024) (λ i. alloc sync s (p.kb_pool i) >>= λ (b, bp).
    ok (b, record p { kb_pool = update_pool p.kb_pool i bp })) in
    let mb = at_index mb_len ((s + (1024 * 1024 - 1)) / (1024 * 1024)) (λ i.
      alloc sync s (p.mb_pool i) >>= λ (b, bp).
      ok (b, record p { mb_pool = update_pool p.mb_pool i bp })) in
    if ltb s 1
    then ok (make 0, p)
    else if ltb s (128 * 7 + 1)
    then bt
    else if ltb s (1024 * 1024 + 1)
    then kb
    else if ltb s (1024 * 1024 * buf_pool_max_mbytes + 1)
    then mb
    else ok (make s, p)

unfoldable pub bfree : Slice → Pools → Run Pools
bfree bf p =
    let s = bf.cap in
    let bt = at_index bt_len ((s + 127) / 128) (λ i.
      free s bf (p.bt_pool i) >>= λ bp. ok (record p { bt_pool = update_pool p.bt_pool i bp })) in
    let kb = at_index kb_len ((s + 1023) / 1024) (λ i.
      free s bf (p.kb_pool i) >>= λ bp. ok (record p { kb_pool = update_pool p.kb_pool i bp })) in
    let mb = at_index mb_len ((s + (1024 * 1024 - 1)) / (1024 * 1024)) (λ i.
      free s bf (p.mb_pool i) >>= λ bp. ok (record p { mb_pool = update_pool p.mb_pool i bp })) in
    if ltb s (128 * 7 + 1)
    then bt
    else if ltb s (1024 * 1024 + 1)
    then kb
    else if ltb s (1024 * 1024 * buf_pool_max_mbytes + 1)
    then mb
    else ok p

-- buffPoolAdjust
unfoldable pub buff_pool_adjust : Pools → Pools
buff_pool_adjust p = record {
  bt_pool = λ i. adjust (p.bt_pool i);
  kb_pool = λ i. adjust (p.kb_pool i);
  mb_pool = λ i. adjust (p.mb_pool i);
}
