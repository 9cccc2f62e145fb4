-- ===== src/ConnectPool.antt =====
-- connect_pool.go: the pool of connections. `Connect` is the connector's: whether it fails at once is a
-- parameter; a connect that does not is in flight until its OnOpen or OnConnectFail. A negative
-- `addNumOnceTime` asks for no connection, as 0 does. `Closed` is called for a live connection, and the
-- outcome of a connect in flight once, so the counters are not negative.
pub mod Keep
mod Tests
use goev.Prelude.{
  ℕ, zero, suc, ◌+◌, ◌-◌, ◌≡◌, Bool, true, false, ◌||◌, Option, none, some, List, [], ◌∷◌, ◌++◌,
  ltb, leb, ◌==◌, if◌then◌else◌, length, Run, ok, panic,
}

-- ConnectPool; a connection is a number. `in_flight` counts the connects of which the outcome is open,
-- and `new_conns` is the channel of those that succeeded.
pub record ConnectPool : Type 0 where
  pub min_idle_num : ℕ
  pub add_num_once_time : ℕ
  pub max_live_num : ℕ
  pub conns : List ℕ
  pub to_new_num : ℕ
  pub live_num : ℕ
  pub in_flight : ℕ
  pub new_conns : List ℕ

unfoldable pub new_connect_pool : ℕ → ℕ → ℕ → Run ConnectPool
new_connect_pool min_idle_num add_num_once_time max_live_num =
    if ltb min_idle_num 1 || leb max_live_num min_idle_num || ltb max_live_num add_num_once_time
    then panic
    else ok (record {
      min_idle_num = min_idle_num;
      add_num_once_time = add_num_once_time;
      max_live_num = max_live_num;
      conns = [];
      to_new_num = 0;
      live_num = 0;
      in_flight = 0;
      new_conns = [];
    })

-- Acquire; without a connection it signals `emptySig`, which makes the pool call keepNum.
unfoldable pub acquire : ConnectPool → Option ℕ × ConnectPool
acquire cp = elim cp.conns [ [] ↦ (none, cp) | c ∷ rest ↦ (some c, record cp { conns = rest }) ]

-- Release of a connection of this pool
unfoldable pub give_back : ℕ → ConnectPool → ConnectPool
give_back c cp = record cp { conns = cp.conns ++ (c ∷ []) }

-- keepNum, the number of connections to make
unfoldable pub wanted : ConnectPool → ℕ
wanted cp =
    let more =
      if cp.live_num == 0
      then cp.min_idle_num
      else if ltb cp.max_live_num (cp.add_num_once_time + cp.live_num)
      then cp.max_live_num - cp.live_num
      else cp.add_num_once_time in
    if ltb (length cp.conns) cp.min_idle_num then more else 0

-- The calls of `Connect`, each with whether it fails at once.
unfoldable pub connect_all : (ℕ → Bool) → ℕ → ConnectPool → ConnectPool
connect_all fails zero cp = cp
connect_all fails (suc n) cp = connect_all fails n (
    if fails n
    then record cp { to_new_num = cp.to_new_num - 1 }
    else record cp { in_flight = suc cp.in_flight })

unfoldable pub keep_num : (ℕ → Bool) → ConnectPool → ConnectPool
unfolding wanted connect_all
keep_num fails cp =
    let n = wanted cp in
    if ltb n 1
    then cp
    else if cp.to_new_num == 0
    then connect_all fails n (record cp { to_new_num = n })
    else cp

-- OnOpen and OnConnectFail of connectPoolConn
unfoldable pub connected : ℕ → ConnectPool → ConnectPool
connected c cp = record cp {
  to_new_num = cp.to_new_num - 1;
  in_flight = cp.in_flight - 1;
  new_conns = cp.new_conns ++ (c ∷ []);
}

unfoldable pub connect_failed : ConnectPool → ConnectPool
connect_failed cp = record cp { to_new_num = cp.to_new_num - 1; in_flight = cp.in_flight - 1 }

-- handleNewConn, one connection, with the answer of its OnOpen
unfoldable pub on_new_conn : Bool → ConnectPool → ConnectPool
unfolding give_back
on_new_conn opens cp = elim cp.new_conns [
  | [] ↦ cp
  | c ∷ rest ↦
      (let taken : ConnectPool = record cp { new_conns = rest } in
        if opens then give_back c (record taken { live_num = suc cp.live_num }) else taken)
]

unfoldable pub closed : ConnectPool → ConnectPool
closed cp = record cp { live_num = cp.live_num - 1 }
