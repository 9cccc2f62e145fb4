-- ===== src/BufPool/Alloc.antt =====
-- BMalloc and BFree over all the classes.
use goev.Prelude.{
  ℕ, suc, ◌+◌, ◌-◌, ◌*◌, ◌/◌, ◌≤◌, ◌<◌, ◌≡◌, ◌⊎◌, inl, inr, refl, ltb, ◌==◌, ◌||◌, arith, true,
  false, if◌then◌else◌, Run, ok, panic, ◌>>=◌, Ends, ends, Ends-bind, Ends-test, Bool-cases,
}
use goev.BufPool.{
  Slice, SyncPool, BuffPool, Pools, alloc, bmalloc, update_pool, at_index, bt_len, kb_len, mb_len,
}
use goev.BufPool.Classes.{IsClass, alloc_lem}

-- Every pool is a class of its size.
abbrev pub AreClasses : ℕ → ℕ → (ℕ → BuffPool) → Type 0
AreClasses n unit f = (i : ℕ) → i < n → IsClass ((i + 1) * unit) (f i)

pub record IsValid (p : Pools) : Type 0 where
  pub bt : AreClasses bt_len 128 p.bt_pool
  pub kb : AreClasses kb_len 1024 p.kb_pool
  pub mb : AreClasses mb_len (1024 * 1024) p.mb_pool

-- A request of `s` bytes rounded up to whole units.
abbrev pub round_up : ℕ → ℕ → ℕ
round_up unit s = (s + (unit - 1)) / unit * unit

-- The capacity of the class that serves a request.
abbrev pub class_size : ℕ → ℕ
class_size s =
    if ltb s (128 * 7 + 1)
    then round_up 128 s
    else if ltb s (1024 * 1024 + 1)
    then round_up 1024 s
    else round_up (1024 * 1024) s

pub update-AreClasses :
    (n unit i : ℕ) (f : ℕ → BuffPool) (bp : BuffPool)
    → AreClasses n unit f
    → IsClass ((i + 1) * unit) bp
    → AreClasses n unit (update_pool f i bp)
update-AreClasses n unit i f bp v new j l = elim (Bool-cases (i == j)) [
  | inl here ↦ let e : i ≡ j = ground arith in rw here (rw e at new)
  | inr away ↦ rw away (v j l)
]

-- A slice as BMalloc promises it.
abbrev pub Serves : ℕ → Slice → Type 0
Serves s b = (b.len ≡ s) × (s ≤ b.cap) × ((b.cap ≡ s) ⊎ (b.cap ≡ class_size s))

module _ (sync : SyncPool) where
  -- One array of classes of whole units, where the index is in range.
  from_array :
      (n unit s : ℕ) (f : ℕ → BuffPool) (k : ℕ → Slice × BuffPool → Run (Slice × Pools))
      {Q : Slice × Pools → Type 0}
      → AreClasses n unit f
      → 0 < s
      → (i : ℕ) → (s + (unit - 1)) / unit ≡ suc i
      → i < n
      → s ≤ (i + 1) * unit
      → ((b : Slice) (bp : BuffPool)
          → b.len ≡ s
          → (b.cap ≡ s) ⊎ (b.cap ≡ (i + 1) * unit)
          → AreClasses n unit (update_pool f i bp)
          → Ends Q (k i (b, bp)))
      → Ends Q (at_index n ((s + (unit - 1)) / unit) (λ j. alloc sync s (f j) >>= k j))
  from_array n unit s f k v pos i e l fits next =
      let inside : (suc i == 0 || ltb n (suc i)) ≡ false = ground arith in
      let at : suc i - 1 ≡ i = omega arith in
      rw (e, inside, at)
        (Ends-bind (alloc_lem sync ((i + 1) * unit) s (f i) (v i l) fits)
          λ (b, bp) r. next b bp r.0 (ground (arith, r.1)) (update-AreClasses n unit i f bp v r.2))

  -- BMalloc returns a slice of the requested length whose capacity is the request or its size class,
  -- for every size but those above 1024*1023 and up to 1024*1024, and keeps the pools valid.
  pub bmalloc_lem :
      (s : ℕ) (p : Pools)
      → IsValid p
      → (s ≤ 1024 * 1023) ⊎ (1024 * 1024 < s)
      → Ends (λ (b, p'). Serves s b × IsValid p') (bmalloc sync s p)
  unfolding bmalloc
  bmalloc_lem s p v range =
      Ends-test (ltb s 1) (λ none_asked. ends ((ground arith, ground arith, inl (ground arith)), v))
        λ some_asked.
          Ends-test (ltb s (128 * 7 + 1))
            (λ small.
              from_array 7 128 s p.bt_pool
                (λ i (b, bp). ok (b, record p { bt_pool = update_pool p.bt_pool i bp })) v.bt
                (ground arith) ((s + 127) / 128 - 1) (ground arith) (ground arith) (ground arith)
                λ b bp l c u.
                  let q : Serves s b = (l, ground (arith, c), ground (arith, c)) in
                  ends (q, record { bt = u; kb = v.kb; mb = v.mb }))
            λ medium.
              Ends-test (ltb s (1024 * 1024 + 1))
                (λ kilo.
                  from_array 1023 1024 s p.kb_pool
                    (λ i (b, bp). ok (b, record p { kb_pool = update_pool p.kb_pool i bp })) v.kb
                    (ground arith) ((s + 1023) / 1024 - 1) (ground arith) (ground arith)
                    (ground arith)
                    λ b bp l c u.
                      let q : Serves s b = (l, ground (arith, c), ground (arith, c)) in
                      ends (q, record { bt = v.bt; kb = u; mb = v.mb }))
                λ big.
                  Ends-test (ltb s (1024 * 1024 * 16 + 1))
                    (λ mega.
                      from_array 16 (1024 * 1024) s p.mb_pool
                        (λ i (b, bp). ok (b, record p { mb_pool = update_pool p.mb_pool i bp }))
                        v.mb (ground arith) ((s + (1024 * 1024 - 1)) / (1024 * 1024) - 1)
                        (ground arith) (ground arith) (ground arith)
                        λ b bp l c u.
                          let q : Serves s b = (l, ground (arith, c), ground (arith, c)) in
                          ends (q, record { bt = v.bt; kb = v.kb; mb = u }))
                    (λ huge. ends ((refl, omega arith, inl refl), v))

-- BMalloc panics on every size above 1024*1023 and up to 1024*1024: it asks `kbPool` for a class that
-- the array does not have.
pub bmalloc_panics :
    (sync : SyncPool) (s : ℕ) (p : Pools)
    → 1024 * 1023 < s
    → s ≤ 1024 * 1024
    → bmalloc sync s p ≡ panic
unfolding bmalloc
bmalloc_panics sync s p low high =
    let slot : (s + 1023) / 1024 ≡ 1024 = omega arith in
    let a : ltb s 1 ≡ false = ground arith in
    let b : ltb s (128 * 7 + 1) ≡ false = ground arith in
    let c : ltb s (1024 * 1024 + 1) ≡ true = ground arith in rw (a, b, c, slot)
