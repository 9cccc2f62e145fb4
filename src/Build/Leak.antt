-- ===== src/Build/Leak.antt =====
-- NewReactor that fails: the descriptors that it made.
use goev.Prelude.{ℕ, zero, suc, ◌≡◌, arith, true, List, [], ◌∷◌, ◌++◌, ok}
use goev.Prelude.Int.{ℤ, pos, negsuc}
use goev.EvData.{is_pos, new_ev_data_map}
use goev.Timer.{Timer}
use goev.Poll.{Kernel}
use goev.Options.{Options, Setter, set_options}
use goev.Options.Sizes.{IsPositive, AllProvided, set_options-IsPositive}
use goev.Sockets.{Effect, opened}
use goev.Build.{
  Call, timerfd_create, epoll_create1, async_eventfd, Part, Answer, given, refused, BuildError,
  failed, async_eventfd_failed, no_timer, new_async_write, add_eventfd, ask, open_poll, build_poll,
  new_reactor, start_polls,
}
use goev.Build.Runs.{Results, Results-bind, Results-failed, open_timer_run}

module _ {ℓ κ} {Item : Type ℓ} {Op : Type κ} (zero_item : Item) (zero_op : Op) (kernel : Kernel)
    (system : Call → ℕ → Answer) (handler : Part → ℕ → ℕ) (i epoll_fd errno : ℕ)
    (epoll : system epoll_create1 i ≡ given epoll_fd)
    (no_eventfd : system async_eventfd i ≡ refused errno) where
  open_poll_run :
      (fd_max reads writes : ℤ) (t : Timer) (log : List Effect)
      → is_pos fd_max ≡ true
      → is_pos reads ≡ true
      → is_pos writes ≡ true
      → Results
          (open_poll zero_item zero_op kernel system handler fd_max t reads writes i)
          log
          (failed (async_eventfd_failed errno), log ++ (opened epoll_fd ∷ []))
  unfolding open_poll ask new_async_write add_eventfd new_ev_data_map
  open_poll_run (pos m) (pos reads) (pos writes) t log h k l = record { result = ground arith }
  open_poll_run (negsuc _) reads writes t log h k l = absurd (cc h)
  open_poll_run (pos _) (negsuc _) writes t log h k l = absurd (cc k)
  open_poll_run (pos _) (pos _) (negsuc _) t log h k l = absurd (cc l)

  build_poll_run :
      (o : Options) (timer_fd : ℕ) (log : List Effect)
      → IsPositive o
      → system timerfd_create i ≡ given timer_fd
      → Results (build_poll zero_item zero_op kernel system handler o i) log (
        failed (async_eventfd_failed errno),
        (log ++ (opened timer_fd ∷ [])) ++ (opened epoll_fd ∷ []),
      )
  unfolding build_poll
  build_poll_run o timer_fd log v e =
      Results-bind _ (open_timer_run system o.timer_heap_init_size i timer_fd log v.heap e) (
        Results-failed _ (
          open_poll_run o.ev_fd_max_size o.ev_poll_read_buff_size o.ev_poll_write_buff_size no_timer
            (log ++ (opened timer_fd ∷ [])) v.fds v.reads v.writes))

module _ {ℓ κ} {Item : Type ℓ} {Op : Type κ} (zero_item : Item) (zero_op : Op) (kernel : Kernel)
    (system : Call → ℕ → Answer) (handler : Part → ℕ → ℕ) where
  start_fails :
      (o : Options) (num : ℤ) {log log' : List Effect} {e : BuildError}
      → is_pos num ≡ true
      → Results (build_poll zero_item zero_op kernel system handler o 0) log (failed e, log')
      → Results (start_polls zero_item zero_op kernel system handler o num) log (failed e, log')
  unfolding start_polls
  start_fails o (pos (suc n)) h e = Results-failed _ e
  start_fails o (pos zero) h e = absurd (cc h)
  start_fails o (negsuc n) h e = absurd (cc h)

-- Where the first poller's eventfd for asynchronous writes is refused, NewReactor returns the error and
-- no reactor, and closes neither the timer's descriptor nor the epoll instance that it made.
pub new_reactor_leaks {ℓ κ} :
    {Item : Type ℓ} {Op : Type κ} (zero_item : Item) (zero_op : Op) (kernel : Kernel)
    (system : Call → ℕ → Answer) (handler : Part → ℕ → ℕ) (opts : List Setter)
    (timer_fd epoll_fd errno : ℕ)
    → AllProvided opts
    → system timerfd_create 0 ≡ given timer_fd
    → system epoll_create1 0 ≡ given epoll_fd
    → system async_eventfd 0 ≡ refused errno
    → new_reactor zero_item zero_op kernel system handler opts []
      ≡ ok (failed (async_eventfd_failed errno), opened timer_fd ∷ opened epoll_fd ∷ [])
unfolding new_reactor
new_reactor_leaks zero_item zero_op kernel system handler opts timer_fd epoll_fd errno all e f g =
    let o = set_options opts in
    let positive = set_options-IsPositive opts all in
    (start_fails zero_item zero_op kernel system handler o o.ev_poll_num positive.num (
      build_poll_run zero_item zero_op kernel system handler 0 epoll_fd errno f g o timer_fd []
        positive e)).result
