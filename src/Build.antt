-- ===== src/Build.antt =====
-- What NewReactor makes: reactor.go (NewReactor), epoll.go (open), timer_4heap.go (newTimer4Heap),
-- async_write.go (newAsyncWrite) and poll_sync_opt.go (newPollSyncOpt). The system's answers to the
-- calls that make descriptors are parameters, as are the handlers, which are numbers.
pub mod Registered
pub mod Runs
pub mod Parts
pub mod Made
pub mod Ready
pub mod Leak
mod Tests
use goev.Prelude.{
  ℕ, zero, suc, ◌+◌, ◌≡◌, Bool, true, false, Option, none, some, List, [], ◌∷◌, ◌++◌, replicate,
  ◌==◌, if◌then◌else◌, Run, ok, panic, out_of_fuel,
}
use goev.Prelude.Int.{ℤ, pos, negsuc}
use goev.Mask.{ev_in, ev_eventfd}
use goev.EvData.{is_pos, blank, new_ev_data_map}
use goev.Timer
use goev.Timer.{Timer, TimerItem, new_timer4_heap, update}
use goev.Poll
use goev.Poll.{EvPoll, Kernel, PollError}
use goev.Notify.{Notifier, new_notifier}
use goev.Options.{Options, Setter, set_options}
use goev.Reactor.{Reactor, update_poll}
use goev.Sockets.{Effect, opened, closed, World}

-- The calls of a poller's construction, and the handlers of its own descriptors.
pub data Call : Type 0 where
  timerfd_create epoll_create1 async_eventfd sync_eventfd : Call

pub data Part : Type 0 where
  timer_part async_part sync_part : Part

-- A descriptor, or an error number.
pub data Answer : Type 0 where
  given : ℕ → Answer
  refused : ℕ → Answer

pub data BuildError : Type 0 where
  epoll_create_failed async_eventfd_failed sync_eventfd_failed : ℕ → BuildError
  async_add_failed sync_add_failed : PollError → BuildError

pub data Outcome {ℓ} (A : Type ℓ) : Type ℓ where
  made : A → Outcome A
  failed : BuildError → Outcome A

-- A step of the construction, with the descriptors made and closed so far.
abbrev pub Build {ℓ} : Type ℓ → Type ℓ
Build A = List Effect → Run (Outcome A × List Effect)

infixl 5 ◌>>=◌
abbrev pub ◌>>=◌ {ℓ κ} : {A : Type ℓ} {B : Type κ} → Build A → (A → Build B) → Build B
◌>>=◌ m f log = elim (m log) [
  | ok (made a, log') ↦ f a log'
  | ok (failed e, log') ↦ ok (failed e, log')
  | panic ↦ panic
  | out_of_fuel ↦ out_of_fuel
]

module _ {ℓ} {A : Type ℓ} where
  abbrev pub pure : A → Build A
  pure a log = ok (made a, log)

  abbrev pub fail : BuildError → Build A
  fail e log = ok (failed e, log)

  abbrev pub lift : Run A → Build A
  lift (ok a) log = ok (made a, log)
  lift panic log = panic
  lift out_of_fuel log = out_of_fuel

-- `syscall.Close(fd); return nil, err`
abbrev pub close_and_fail {ℓ} : {A : Type ℓ} → ℕ → BuildError → Build A
close_and_fail fd e log = ok (failed e, log ++ (closed fd ∷ []))

-- `make([]byte, n)`
abbrev pub make_bytes : ℤ → Run (List ℕ)
make_bytes (pos n) = ok (replicate n 0)
make_bytes (negsuc _) = panic

-- A call with an `int` that is below 1 where it is negative.
abbrev pub with_size {ℓ} : {A : Type ℓ} → ℤ → (ℕ → Run A) → Run A
with_size (pos n) f = f n
with_size (negsuc _) f = panic

module _ {ℓ κ} (Item : Type ℓ) (Op : Type κ) where
  -- evPoll after `open`, with its descriptors.
  pub record Opened : Type (ℓ ⊔ κ) where
    pub efd : ℕ
    pub ev_poll_read_buff : List ℕ
    pub ev_poll_write_buff : List ℕ
    pub poller : EvPoll
    pub timer : Timer
    pub async_write : Notifier Item
    pub poll_sync_opterate : Notifier Op

  -- The reactor, and the other parts of its pollers.
  pub record Built : Type (ℓ ⊔ κ) where
    pub reactor : Reactor
    pub timers : ℕ → Timer
    pub parts : ℕ → Option Opened

abbrev pub as_world {ℓ κ} : {Item : Type ℓ} {Op : Type κ} → Built Item Op → List Effect → World
as_world b log = record { reactor = b.reactor; timers = b.timers; effects = log }

-- The pollers of `make([]evPoll, n)`. A place out of range is never read.
abbrev pub unopened : ℕ → EvPoll
unopened i = record {
  id = i;
  ev_handler_map = record {
    arr_size = 0;
    arr = λ _. blank;
    s_map = λ _. none;
    cells = λ _. blank;
    next = 0;
  };
  interest = λ _. none;
  eh_fd = λ _. pos 0;
  eh_ep = λ _. none;
}

abbrev pub no_timer : Timer
no_timer = record {
  items = λ _. record { expired_at = 0; interval = 0; eh = none };
  next = 0;
  ti = λ _. none;
  timerfd_settime = 0;
  fheap = [];
  armed = none;
}

module _ (system : Call → ℕ → Answer) where
  -- A call that makes a descriptor for poller `i`.
  unfoldable pub ask : Call → ℕ → (ℕ → BuildError) → Build ℕ
  ask call i error log = elim (system call i) [
    | given fd ↦ ok (made fd, log ++ (opened fd ∷ []))
    | refused errno ↦ ok (failed (error errno), log)
  ]

  -- newTimer4Heap: a refusal is a panic.
  unfoldable pub open_timer : ℤ → ℕ → Build (ℕ × Timer)
  open_timer cap i log = elim (system timerfd_create i) [
    | given fd ↦
        (lift (with_size cap (new_timer4_heap no_timer.items)) >>= λ t. pure (fd, t))
          (log ++ (opened fd ∷ []))
    | refused errno ↦ panic
  ]

module _ (kernel : Kernel) (system : Call → ℕ → Answer) (handler : Part → ℕ → ℕ) where
  -- The eventfd of a queue, registered for its handler.
  unfoldable pub add_eventfd :
      Call → Part → (ℕ → BuildError) → (PollError → BuildError) → ℕ → EvPoll → Build EvPoll
  unfolding ask
  add_eventfd call part no_fd no_add i p = do
    fd ← ask system call i no_fd
    (err, p') ← lift (Poll.add kernel fd ev_eventfd (handler part i) p)
    elim err [ none ↦ pure p' | some e ↦ close_and_fail fd (no_add e) ]

module _ {ℓ κ} {Item : Type ℓ} {Op : Type κ} (zero_item : Item) (zero_op : Op) (kernel : Kernel)
    (system : Call → ℕ → Answer) (handler : Part → ℕ → ℕ) where
  unfoldable pub new_async_write : ℕ → EvPoll → Build (Notifier Item × EvPoll)
  unfolding add_eventfd
  new_async_write i p = do
    p' ←
        add_eventfd kernel system handler async_eventfd async_part async_eventfd_failed
          async_add_failed i p
    pure (new_notifier zero_item 256, p')

  unfoldable pub new_poll_sync_opt : ℕ → EvPoll → Build (Notifier Op × EvPoll)
  unfolding add_eventfd
  new_poll_sync_opt i p = do
    p' ←
        add_eventfd kernel system handler sync_eventfd sync_part sync_eventfd_failed sync_add_failed
          i p
    pure (new_notifier zero_op 4, p')

  -- open
  unfoldable pub open_poll : ℤ → Timer → ℤ → ℤ → ℕ → Build (Opened Item Op)
  unfolding ask new_async_write new_poll_sync_opt
  open_poll fd_max t read_size write_size i = do
    efd ← ask system epoll_create1 i epoll_create_failed
    reads ← lift (make_bytes read_size)
    writes ← lift (make_bytes write_size)
    m ← lift (with_size fd_max new_ev_data_map)
    (async, p1) ← new_async_write i (record (unopened i) { ev_handler_map = m })
    (sync, p2) ← new_poll_sync_opt i p1
    pure (record {
      efd = efd;
      ev_poll_read_buff = reads;
      ev_poll_write_buff = writes;
      poller = p2;
      timer = t;
      async_write = async;
      poll_sync_opterate = sync;
    })

  -- The body of the loop of NewReactor. The error of `add` is not looked at.
  unfoldable pub build_poll : Options → ℕ → Build (Opened Item Op)
  unfolding open_timer open_poll
  build_poll o i = do
    (tfd, t) ← open_timer system o.timer_heap_init_size i
    ep ← open_poll o.ev_fd_max_size t o.ev_poll_read_buff_size o.ev_poll_write_buff_size i
    (_, p) ← lift (Poll.add kernel tfd ev_in (handler timer_part i) ep.poller)
    pure (record ep { poller = p })

  -- `r.evPolls[i]` after the round.
  abbrev pub place : ℕ → Opened Item Op → Built Item Op → Built Item Op
  place i ep b = record b {
    reactor = record (b.reactor) { ev_polls = update_poll b.reactor.ev_polls i ep.poller };
    timers = update b.timers i ep.timer;
    parts = update b.parts i (some ep);
  }

  -- The loop, with the rounds that are left.
  unfoldable pub build_polls : Options → ℕ → ℕ → Built Item Op → Build (Built Item Op)
  unfolding build_poll
  build_polls o zero i b = pure b
  build_polls o (suc n) i b = build_poll o i >>= λ ep. build_polls o n (suc i) (place i ep b)

  abbrev pub nothing_built : ℕ → Built Item Op
  nothing_built n = record {
    reactor = record { ev_poll_num = n; ev_polls = unopened; told = λ _. false };
    timers = λ _. no_timer;
    parts = λ _. none;
  }

  -- The check of `evPollNum`, and the loop.
  unfoldable pub start_polls : Options → ℤ → Build (Built Item Op)
  unfolding build_polls
  start_polls o (pos (suc n)) = build_polls o (suc n) 0 (nothing_built (suc n))
  start_polls o (pos zero) = lift panic
  start_polls o (negsuc _) = lift panic

  unfoldable pub new_reactor : List Setter → Build (Built Item Op)
  unfolding start_polls
  new_reactor opts = start_polls (set_options opts) (set_options opts).ev_poll_num
