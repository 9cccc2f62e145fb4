-- ===== src/ConnectPool/Keep.antt =====
-- keepNum: how many connections it starts.
use goev.Prelude.{
  ℕ, zero, suc, ◌+◌, ◌-◌, ◌≤◌, ◌<◌, ◌≡◌, ◌≢◌, ◌==◌, refl, arith, Bool, ltb, Bool-cases, inl, inr,
}
use goev.ConnectPool.{ConnectPool, wanted, connect_all, keep_num}

-- The limits that NewConnectPool checks, and the accounts: no more than the most connections are live,
-- and `toNewNum` counts the connects in flight.
pub record IsValid (cp : ConnectPool) : Type 0 where
  pub some_idle : 0 < cp.min_idle_num
  pub limits : (cp.min_idle_num < cp.max_live_num) × (cp.add_num_once_time ≤ cp.max_live_num)
  pub live : cp.live_num ≤ cp.max_live_num
  pub counted : cp.to_new_num ≡ cp.in_flight

wanted_lem : (cp : ConnectPool) → IsValid cp → wanted cp + cp.live_num ≤ cp.max_live_num
unfolding wanted
wanted_lem cp v = ground (arith, v.limits, v.live)

-- What the connects leave: the numbers of the pool, and a count for each that is in flight.
record Connected (n : ℕ) (cp r : ConnectPool) : Type 0 where
  settled : r.to_new_num + cp.in_flight ≡ r.in_flight + (cp.to_new_num - n)
  bounded : (cp.in_flight ≤ r.in_flight) × (r.in_flight ≤ cp.in_flight + n)
  kept :
      (r.live_num ≡ cp.live_num)
      × (r.max_live_num ≡ cp.max_live_num)
      × (r.min_idle_num ≡ cp.min_idle_num)
      × (r.add_num_once_time ≡ cp.add_num_once_time)
      × (r.conns ≡ cp.conns)

connect_all_lem :
    (fails : ℕ → Bool) (n : ℕ) (cp : ConnectPool)
    → n ≤ cp.to_new_num
    → Connected n cp (connect_all fails n cp)
unfolding connect_all
connect_all_lem fails zero cp h = record {
  settled = omega arith;
  bounded = (omega arith, omega arith);
  kept = (refl, refl, refl, refl, refl);
}
connect_all_lem fails (suc n) cp h = elim (Bool-cases (fails n)) [
  | inl refused ↦
      let ih =
        connect_all_lem fails n (record cp { to_new_num = cp.to_new_num - 1 }) (omega arith) in
      rw refused (record {
        settled = omega (arith, ih.settled);
        bounded = (omega (arith, ih.bounded), omega (arith, ih.bounded));
        kept = ih.kept;
      })
  | inr started ↦
      let ih = connect_all_lem fails n (record cp { in_flight = suc cp.in_flight }) (omega arith) in
      rw started (record {
        settled = omega (arith, ih.settled);
        bounded = (omega (arith, ih.bounded), omega (arith, ih.bounded));
        kept = ih.kept;
      })
]

-- keepNum of a valid pool keeps it valid. While connects are in flight it starts none; otherwise those
-- that it starts and the live connections are together no more than the pool allows.
pub keep_num_lem :
    (fails : ℕ → Bool) (cp : ConnectPool)
    → IsValid cp
    → IsValid (keep_num fails cp)
      × ((cp.to_new_num ≢ 0) → keep_num fails cp ≡ cp)
      × ((cp.to_new_num ≡ 0)
          → (keep_num fails cp).live_num + (keep_num fails cp).in_flight ≤ cp.max_live_num)
unfolding keep_num
keep_num_lem fails cp v = elim (Bool-cases (ltb (wanted cp) 1)) [
  | inl enough ↦ rw enough (v, (λ ne. refl), λ e. omega (arith, v.live, v.counted))
  | inr more ↦ elim (Bool-cases (cp.to_new_num == 0)) [
    | inr busy ↦ rw (more, busy) (v, (λ ne. refl), λ e. absurd (ground arith))
    | inl idle ↦
        let c =
          connect_all_lem fails (wanted cp) (record cp { to_new_num = wanted cp }) (omega arith) in
        let z : cp.to_new_num ≡ 0 = ground arith in
        rw (more, idle)
          (
            record {
              some_idle = omega (arith, c.kept, v.some_idle);
              limits = (omega (arith, c.kept, v.limits), omega (arith, c.kept, v.limits));
              live = omega (arith, c.kept, v.live);
              counted = omega (arith, c.settled, v.counted, z);
            },
            (λ ne. absurd (ne z)),
            λ e. omega (arith, c.kept, c.bounded, wanted_lem cp v, v.counted, z),
          )
  ]
]
