-- ===== src/Build/Parts.antt =====
-- What is left of the construction: the poller of a round of NewReactor, or the cause of an error.
use goev.Prelude.{ℕ, ◌<◌, ◌≡◌, some, [], ◌∷◌, length}
use goev.Prelude.Int.{ℤ, pos}
use goev.Mask.{ev_in, ev_eventfd}
use goev.Timer.{Timer}
use goev.Poll.{EvPoll, Interest, Kernel, PollError, ctl_add, ctl_failed}
use goev.Notify.{new_notifier}
use goev.Build.{
  Call, timerfd_create, epoll_create1, async_eventfd, sync_eventfd, Part, timer_part, async_part,
  sync_part, Answer, given, refused, BuildError, epoll_create_failed, async_eventfd_failed,
  sync_eventfd_failed, async_add_failed, sync_add_failed, Opened, no_timer,
}
use goev.Build.Registered.{Registered, Registration}

-- The descriptors that the system gives are positive, and one poller's are distinct.
pub record IsFresh (system : Call → ℕ → Answer) : Type 0 where
  pub positive : (c : Call) (i fd : ℕ) → system c i ≡ given fd → 0 < fd
  pub apart : (c d : Call) (i fd : ℕ) → system c i ≡ given fd → system d i ≡ given fd → c ≡ d

module _ (kernel : Kernel) (system : Call → ℕ → Answer) where
  -- The call for a descriptor was refused, or `epoll_ctl` for the descriptor that it gave.
  abbrev pub CallRefused : Call → ℕ → ℕ → Type 0
  CallRefused c n errno = (i : ℕ) × (i < n) × (system c i ≡ refused errno)

  abbrev pub AddRefused : Call → ℕ → PollError → Type 0
  AddRefused c n e =
      (i : ℕ) × (i < n)
      × ((fd : ℕ) × (interest : Interest) × (errno : ℕ) × (system c i ≡ given fd)
          × (e ≡ ctl_failed ctl_add errno)
          × (kernel ctl_add fd interest ≡ some errno))

  -- What was refused, of the calls of the first `n` pollers.
  pub data Because (n : ℕ) : BuildError → Type 0 where
    no_epoll :
        {errno : ℕ} → CallRefused epoll_create1 n errno → Because n (epoll_create_failed errno)
    no_async :
        {errno : ℕ} → CallRefused async_eventfd n errno → Because n (async_eventfd_failed errno)
    no_sync : {errno : ℕ} → CallRefused sync_eventfd n errno → Because n (sync_eventfd_failed errno)
    async_not_added :
        {e : PollError} → AddRefused async_eventfd n e → Because n (async_add_failed e)
    sync_not_added : {e : PollError} → AddRefused sync_eventfd n e → Because n (sync_add_failed e)

module _ (handler : Part → ℕ → ℕ) (i : ℕ) where
  -- The registration of the eventfd of a queue, and of the timer's descriptor.
  abbrev pub is_eventfd : Part → ℕ → Registration
  is_eventfd part fd = record { fd = fd; events = ev_eventfd; eh = handler part i }

  abbrev pub is_timerfd : ℕ → Registration
  is_timerfd fd = record { fd = fd; events = ev_in; eh = handler timer_part i }

module _ {ℓ κ} (system : Call → ℕ → Answer) (handler : Part → ℕ → ℕ) (i : ℕ) {Item : Type ℓ}
    {Op : Type κ} (zero_item : Item) (zero_op : Op) (read_size write_size : ℤ) where
  -- Poller `i` after `open`: it knows its queues, which are empty, and nothing else.
  pub record IsOpened (t : Timer) (ep : Opened Item Op) : Type (ℓ ⊔ κ) where
    pub async_fd : ℕ
    pub sync_fd : ℕ
    pub async_given : system async_eventfd i ≡ given async_fd
    pub sync_given : system sync_eventfd i ≡ given sync_fd
    pub epoll_given : system epoll_create1 i ≡ given ep.efd
    pub registered :
        Registered i
          (is_eventfd handler i sync_part sync_fd ∷ is_eventfd handler i async_part async_fd ∷ [])
          ep.poller
    pub same_timer : ep.timer ≡ t
    pub async_empty : ep.async_write ≡ new_notifier zero_item 256
    pub sync_empty : ep.poll_sync_opterate ≡ new_notifier zero_op 4
    pub reads_sized : pos (length ep.ev_poll_read_buff) ≡ read_size
    pub writes_sized : pos (length ep.ev_poll_write_buff) ≡ write_size

  -- Poller `i` after its round of NewReactor: it knows its timer, too, which is empty.
  pub record IsBuilt (ep : Opened Item Op) : Type (ℓ ⊔ κ) where
    pub timer_fd : ℕ
    pub timer_given : system timerfd_create i ≡ given timer_fd
    pub before : EvPoll
    pub was_opened : IsOpened no_timer (record ep { poller = before })
    pub registered :
        Registered i
          (is_timerfd handler i timer_fd
            ∷ is_eventfd handler i sync_part was_opened.sync_fd
            ∷ is_eventfd handler i async_part was_opened.async_fd
            ∷ [])
          ep.poller
