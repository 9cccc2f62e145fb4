-- ===== src/ConnectPool/Tests.antt =====
-- Runs of the connection pool.
use goev.Prelude.{ℕ, ◌+◌, ◌≤◌, ◌≡◌, ◌≢◌, refl, arith, Bool, true, false, []}
use goev.ConnectPool.{ConnectPool, keep_num, connected, on_new_conn}
use goev.ConnectPool.Keep.{IsValid, keep_num_lem}

-- One connection is live and in use, of three at most.
abbrev in_use : ConnectPool
in_use = record {
  min_idle_num = 1;
  add_num_once_time = 3;
  max_live_num = 3;
  conns = [];
  to_new_num = 0;
  live_num = 1;
  in_flight = 0;
  new_conns = [];
}

in_use-IsValid : IsValid in_use
in_use-IsValid = record {
  some_idle = omega arith;
  limits = (omega arith, omega arith);
  live = omega arith;
  counted = refl;
}

abbrev none_fails : ℕ → Bool
none_fails n = false

keep_num_lem_example :
    IsValid (keep_num none_fails in_use)
    × ((in_use.to_new_num ≢ 0) → keep_num none_fails in_use ≡ in_use)
    × ((in_use.to_new_num ≡ 0)
        → (keep_num none_fails in_use).live_num + (keep_num none_fails in_use).in_flight
          ≤ in_use.max_live_num)
keep_num_lem_example = keep_num_lem none_fails in_use in_use-IsValid

-- keepNum that runs after two connects succeeded and before handleNewConn takes them in starts two
-- more: five connections, of three at most.
overshoot_run :
    (on_new_conn true (
      on_new_conn true (
        on_new_conn true (
          on_new_conn true (
            connected 4 (
              connected 3 (
                keep_num none_fails
                  (connected 2 (connected 1 (keep_num none_fails in_use)))))))))).live_num
    ≡ 5
unfolding keep_num connected on_new_conn
overshoot_run = refl
