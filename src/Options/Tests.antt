-- ===== src/Options/Tests.antt =====
-- A list of options.
use goev.Prelude.{refl, true, List, [], ◌∷◌}
use goev.Prelude.Int.{pos, negsuc}
use goev.Options.{Setter, set_options, reuse_port, ev_fd_max_size}
use goev.Options.Sizes.{
  IsPositive, of_reuse_port, of_ev_fd_max_size, of_ev_poll_num, set_options-IsPositive,
}

-- A descriptor limit below 1 is ignored.
abbrev chosen : List Setter
chosen = reuse_port true ∷ ev_fd_max_size (negsuc 4) ∷ (λ o. record o { ev_poll_num = pos 4 }) ∷ []

set_options-IsPositive_example : IsPositive (set_options chosen)
set_options-IsPositive_example =
    set_options-IsPositive chosen
      (of_reuse_port true, (of_ev_fd_max_size (negsuc 4), (of_ev_poll_num (pos 4) refl, tt)))
