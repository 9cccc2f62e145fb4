-- ===== src/Reactor.antt =====
-- reactor.go: several pollers, and the routing of a descriptor to one of them.
pub mod Route
pub mod Refused
mod Tests
use goev.Prelude.{
  ℕ, zero, suc, ◌+◌, ◌%◌, ◌<◌, ◌≡◌, Bool, true, false, not, ◌||◌, Option, none, some, List, [], ◌∷◌,
  ltb, ◌==◌, if◌then◌else◌, Run, ok, panic, ◌>>=◌,
}
use goev.Prelude.Int.{ℤ, pos, negsuc}
use goev.Mask.{Mask, is_zero}
use goev.EvData.{is_pos, new_ev_data_map}
use goev.Poll
use goev.Poll.{EvPoll, Kernel, PollError}

-- Reactor; `told` are the handlers that `setReactor` made know it.
pub record Reactor : Type 0 where
  pub ev_poll_num : ℕ
  pub ev_polls : ℕ → EvPoll
  pub told : ℕ → Bool

pub data ReactorError : Type 0 where
  add_invalid append_invalid remove_invalid : ReactorError
  poll_error : PollError → ReactorError

abbrev pub as_error : Option PollError → Option ReactorError
as_error none = none
as_error (some e) = some (poll_error e)

-- `i := 0; if r.evPollNum > 1 { i = fd % r.evPollNum }`
unfoldable pub route : ℕ → ℕ → ℕ
route num fd = if ltb 1 num then fd % num else 0

abbrev pub update_poll : (ℕ → EvPoll) → ℕ → EvPoll → ℕ → EvPoll
update_poll f i p j = if i == j then p else f j

-- A call on `r.evPolls[i]`, which panics out of range.
abbrev pub on_poll :
    ℕ → (EvPoll → Run (Option PollError × EvPoll)) → Reactor → Run (Option ReactorError × Reactor)
on_poll i call r =
    let inside : Run (Option ReactorError × Reactor) = call (r.ev_polls i) >>= λ (err, p).
    ok (as_error err, record r { ev_polls = update_poll r.ev_polls i p }) in
    if ltb i r.ev_poll_num then inside else panic

module _ (kernel : Kernel) where
  unfoldable pub add_ev_handler :
      Option ℕ → ℤ → Mask → Reactor → Run (Option ReactorError × Reactor)
  unfolding route
  add_ev_handler eh (negsuc _) events r = ok (some add_invalid, r)
  add_ev_handler none (pos fd) events r = ok (some add_invalid, r)
  add_ev_handler (some eh) (pos fd) events r =
      let told : Reactor = record r { told = λ g. if eh == g then true else r.told g } in
      let added = on_poll (route r.ev_poll_num fd) (Poll.add kernel fd events eh) told in
      if ltb fd 1 then ok (some add_invalid, r) else added

  unfoldable pub append_event : ℤ → Mask → Reactor → Run (Option ReactorError × Reactor)
  unfolding route
  append_event (negsuc _) events r = ok (some append_invalid, r)
  append_event (pos fd) events r =
      let appended =
        on_poll (route r.ev_poll_num fd) (λ p. ok (Poll.append kernel fd events p)) r in
      if ltb fd 1 || is_zero events then ok (some append_invalid, r) else appended

  unfoldable pub remove_event : ℤ → Mask → Reactor → Run (Option ReactorError × Reactor)
  unfolding route
  remove_event (negsuc _) events r = ok (some remove_invalid, r)
  remove_event (pos fd) events r =
      let removed = on_poll (route r.ev_poll_num fd) (Poll.remove kernel (pos fd) events) r in
      if ltb fd 1 || is_zero events then ok (some remove_invalid, r) else removed
