-- ===== src/Options/Sizes.antt =====
-- The options that NewReactor reads its sizes from.
use goev.Prelude.{
  ◌≡◌, refl, ap, subst, arith, Bool, true, List, [], ◌∷◌, ok, panic, Bool-cases, inl, inr,
}
use goev.Prelude.Int.{ℤ}
use goev.EvData.{is_pos}
use goev.Options.{
  Options, Setter, positive, defaults, set_all, set_options, reuse_addr, reuse_port, listen_backlog,
  sock_rcv_buf_size, ev_fd_max_size, ev_poll_lock_os_thread, ev_poll_num, ev_poll_read_buff_size,
  ev_poll_write_buff_size, timer_heap_init_size,
}

pub record IsPositive (o : Options) : Type 0 where
  pub num : is_pos o.ev_poll_num ≡ true
  pub fds : is_pos o.ev_fd_max_size ≡ true
  pub reads : is_pos o.ev_poll_read_buff_size ≡ true
  pub writes : is_pos o.ev_poll_write_buff_size ≡ true
  pub heap : is_pos o.timer_heap_init_size ≡ true

-- What the exported functions return: an Option is one of these.
pub data Provided : Setter → Type 0 where
  of_reuse_addr : (v : Bool) → Provided (reuse_addr v)
  of_reuse_port : (v : Bool) → Provided (reuse_port v)
  of_listen_backlog : (n : ℤ) → Provided (listen_backlog n)
  of_sock_rcv_buf_size : (n : ℤ) → Provided (sock_rcv_buf_size n)
  of_ev_fd_max_size : (n : ℤ) → Provided (ev_fd_max_size n)
  of_ev_poll_lock_os_thread : (v : Bool) → Provided (ev_poll_lock_os_thread v)
  of_ev_poll_num : {s : Setter} (n : ℤ) → ev_poll_num n ≡ ok s → Provided s
  of_ev_poll_read_buff_size : {s : Setter} (n : ℤ) → ev_poll_read_buff_size n ≡ ok s → Provided s
  of_ev_poll_write_buff_size : {s : Setter} (n : ℤ) → ev_poll_write_buff_size n ≡ ok s → Provided s
  of_timer_heap_init_size : {s : Setter} (n : ℤ) → timer_heap_init_size n ≡ ok s → Provided s

abbrev pub AllProvided : List Setter → Type 0
AllProvided [] = Unit {0}
AllProvided (s ∷ opts) = Provided s × AllProvided opts

-- A checked size is positive, and its setter writes it.
checked : (n : ℤ) (write s : Setter) → positive n write ≡ ok s → (is_pos n ≡ true) × (write ≡ s)
checked n write s h = elim (Bool-cases (is_pos n)) [
  | inl fine ↦ (fine, ap (λ r. elim r [ ok a ↦ a | _ ↦ s ]) (rw fine at h))
  | inr bad ↦ (let no_setter : panic ≡ ok s = rw bad at h in absurd (cc no_setter))
]

Provided-IsPositive : {s : Setter} → Provided s → (o : Options) → IsPositive o → IsPositive (s o)
Provided-IsPositive (of_reuse_addr v) o p = ground arith
Provided-IsPositive (of_reuse_port v) o p = ground arith
Provided-IsPositive (of_listen_backlog n) o p = ground arith
Provided-IsPositive (of_sock_rcv_buf_size n) o p = ground arith
Provided-IsPositive (of_ev_fd_max_size n) o p = elim (Bool-cases (is_pos n)) [
  | inl fine ↦
      rw (fine, ev_fd_max_size)
        (record { num = p.num; fds = fine; reads = p.reads; writes = p.writes; heap = p.heap })
  | inr bad ↦ rw (bad, ev_fd_max_size) p
]
Provided-IsPositive (of_ev_poll_lock_os_thread v) o p = ground arith
Provided-IsPositive (of_ev_poll_num n h) o p =
    let (fine, e) = checked n _ _ h in subst (λ f. IsPositive (f o)) e (ground arith)
Provided-IsPositive (of_ev_poll_read_buff_size n h) o p =
    let (fine, e) = checked n _ _ h in subst (λ f. IsPositive (f o)) e (ground arith)
Provided-IsPositive (of_ev_poll_write_buff_size n h) o p =
    let (fine, e) = checked n _ _ h in subst (λ f. IsPositive (f o)) e (ground arith)
Provided-IsPositive (of_timer_heap_init_size n h) o p =
    let (fine, e) = checked n _ _ h in subst (λ f. IsPositive (f o)) e (ground arith)

set_all-IsPositive :
    (opts : List Setter) (o : Options)
    → AllProvided opts
    → IsPositive o
    → IsPositive (set_all opts o)
set_all-IsPositive [] o all p = p
set_all-IsPositive (s ∷ opts) o (given, rest) p =
    set_all-IsPositive opts (s o) rest (Provided-IsPositive given o p)

-- Whatever options are given, in whatever order, the number of pollers and the sizes of the maps,
-- buffers and heaps are positive.
pub set_options-IsPositive : (opts : List Setter) → AllProvided opts → IsPositive (set_options opts)
unfolding set_options
set_options-IsPositive opts all =
    set_all-IsPositive opts defaults all
      (record { num = refl; fds = refl; reads = refl; writes = refl; heap = refl })
