-- ===== src/Options.antt =====
-- options.go: the options of a reactor, their defaults, and the functions that set them.
pub mod Sizes
mod Tests
use goev.Prelude.{◌*◌, Bool, true, false, List, [], ◌∷◌, if◌then◌else◌, Run, ok, panic}
use goev.Prelude.Int.{ℤ, pos}
use goev.EvData.{is_pos}

pub record Options : Type 0 where
  pub reuse_addr : Bool
  pub reuse_port : Bool
  pub listen_backlog : ℤ
  pub sock_rcv_buf_size : ℤ
  pub ev_poll_lock_os_thread : Bool
  pub ev_poll_num : ℤ
  pub ev_fd_max_size : ℤ
  pub ev_poll_read_buff_size : ℤ
  pub ev_poll_write_buff_size : ℤ
  pub timer_heap_init_size : ℤ

-- Option
abbrev pub Setter : Type 0
Setter = Options → Options

abbrev pub defaults : Options
defaults = record {
  reuse_addr = true;
  reuse_port = false;
  listen_backlog = pos 512;
  sock_rcv_buf_size = pos 0;
  ev_poll_lock_os_thread = false;
  ev_poll_num = pos 1;
  ev_fd_max_size = pos 8192;
  ev_poll_read_buff_size = pos 8192;
  ev_poll_write_buff_size = pos (16 * 1024);
  timer_heap_init_size = pos 1024;
}

abbrev pub set_all : List Setter → Options → Options
set_all [] o = o
set_all (opt ∷ opts) o = set_all opts (opt o)

unfoldable pub set_options : List Setter → Options
set_options opts = set_all opts defaults

abbrev pub reuse_addr : Bool → Setter
reuse_addr v o = record o { reuse_addr = v }

abbrev pub reuse_port : Bool → Setter
reuse_port v o = record o { reuse_port = v }

abbrev pub listen_backlog : ℤ → Setter
listen_backlog v o = record o { listen_backlog = v }

abbrev pub sock_rcv_buf_size : ℤ → Setter
sock_rcv_buf_size n o = record o { sock_rcv_buf_size = n }

abbrev pub ev_fd_max_size : ℤ → Setter
ev_fd_max_size n o = if is_pos n then record o { ev_fd_max_size = n } else o

abbrev pub ev_poll_lock_os_thread : Bool → Setter
ev_poll_lock_os_thread v o = record o { ev_poll_lock_os_thread = v }

-- A size that is not positive is a panic.
abbrev pub positive : ℤ → Setter → Run Setter
positive n setter = if is_pos n then ok setter else panic

abbrev pub ev_poll_num : ℤ → Run Setter
ev_poll_num n = positive n (λ o. record o { ev_poll_num = n })

abbrev pub ev_poll_read_buff_size : ℤ → Run Setter
ev_poll_read_buff_size n = positive n (λ o. record o { ev_poll_read_buff_size = n })

abbrev pub ev_poll_write_buff_size : ℤ → Run Setter
ev_poll_write_buff_size n = positive n (λ o. record o { ev_poll_write_buff_size = n })

abbrev pub timer_heap_init_size : ℤ → Run Setter
timer_heap_init_size n = positive n (λ o. record o { timer_heap_init_size = n })
