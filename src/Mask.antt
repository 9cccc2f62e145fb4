-- ===== src/Mask.antt =====
-- ev_handler.go: epoll event masks. A `uint32` is the function that tells its bits.
use goev.Prelude.{ℕ, zero, suc, Bool, true, not, ◌&&◌, ◌||◌, ◌==◌}

abbrev pub Mask : Type 0
Mask = ℕ → Bool

-- `1 << n`
abbrev pub bit : ℕ → Mask
bit n k = n == k

-- `a | b` and `a &^ b`
abbrev pub union : Mask → Mask → Mask
union a b k = a k || b k

abbrev pub clear : Mask → Mask → Mask
clear a b k = a k && not (b k)

none_below : ℕ → Mask → Bool
none_below zero m = true
none_below (suc n) m = not (m n) && none_below n m

-- `a == 0`
unfoldable pub is_zero : Mask → Bool
unfolding none_below
is_zero m = none_below 32 m

-- `a == b`
unfoldable pub same : Mask → Mask → Bool
unfolding is_zero
same a b = is_zero (union (clear a b) (clear b a))

-- `a & b != 0`
unfoldable pub overlaps : Mask → Mask → Bool
unfolding is_zero
overlaps a b = not (is_zero (λ k. a k && b k))

-- sys/epoll.h: EPOLLIN 0x1, EPOLLOUT 0x4, EPOLLERR 0x8, EPOLLHUP 0x10, EPOLLRDHUP 0x2000
abbrev pub epoll_in : Mask
epoll_in = bit 0

abbrev pub epoll_out : Mask
epoll_out = bit 2

abbrev pub epoll_err : Mask
epoll_err = bit 3

abbrev pub epoll_hup : Mask
epoll_hup = bit 4

abbrev pub epoll_rdhup : Mask
epoll_rdhup = bit 13

abbrev pub epoll_et : Mask
epoll_et = bit 31

abbrev pub ev_in : Mask
ev_in = union epoll_in epoll_rdhup

abbrev pub ev_out : Mask
ev_out = union epoll_out epoll_rdhup

abbrev pub ev_in_et : Mask
ev_in_et = union ev_in epoll_et

abbrev pub ev_out_et : Mask
ev_out_et = union ev_out epoll_et

abbrev pub ev_eventfd : Mask
ev_eventfd = union epoll_in epoll_rdhup

abbrev pub ev_accept : Mask
ev_accept = union epoll_in epoll_rdhup

abbrev pub ev_connect : Mask
ev_connect = union (union epoll_in epoll_out) epoll_rdhup

abbrev pub ev_all : Mask
ev_all = union (union ev_in ev_out) epoll_et
