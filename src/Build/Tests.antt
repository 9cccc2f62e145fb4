-- ===== src/Build/Tests.antt =====
-- Reactors with two pollers.
use goev.Prelude.{ℕ, ◌+◌, ◌*◌, ◌<◌, ◌≡◌, refl, arith, List, [], ◌∷◌, ok}
use goev.Prelude.Int.{pos}
use goev.Options.{Setter, set_options}
use goev.Options.Sizes.{AllProvided, of_ev_poll_num}
use goev.Sockets.{Effect, opened}
use goev.Sockets.Ready.{IsReady}
use goev.Poll.Tests.{willing}
use goev.Build.{
  Call, timerfd_create, epoll_create1, async_eventfd, sync_eventfd, Part, timer_part, async_part,
  sync_part, Answer, given, refused, failed, async_eventfd_failed, as_world, new_reactor,
}
use goev.Build.Registered.{Builds}
use goev.Build.Parts.{IsFresh, Because}
use goev.Build.Ready.{BuiltTo, new_reactor_lem}
use goev.Build.Leak.{new_reactor_leaks}

abbrev generous : Call → ℕ → Answer
generous timerfd_create i = given (3 + 4 * i)
generous epoll_create1 i = given (4 + 4 * i)
generous async_eventfd i = given (5 + 4 * i)
generous sync_eventfd i = given (6 + 4 * i)

-- The limit of descriptors is reached at the eventfd.
abbrev at_limit : Call → ℕ → Answer
at_limit async_eventfd i = refused 24
at_limit c i = generous c i

abbrev handlers : Part → ℕ → ℕ
handlers timer_part i = 3 * i
handlers async_part i = 3 * i + 1
handlers sync_part i = 3 * i + 2

abbrev two : List Setter
two = (λ o. record o { ev_poll_num = pos 2 }) ∷ []

two-Provided : AllProvided two
two-Provided = (of_ev_poll_num (pos 2) refl, tt)

generous-positive : (c : Call) (i fd : ℕ) → generous c i ≡ given fd → 0 < fd
generous-positive timerfd_create i fd e = ground arith
generous-positive epoll_create1 i fd e = ground arith
generous-positive async_eventfd i fd e = ground arith
generous-positive sync_eventfd i fd e = ground arith

generous-apart : (c d : Call) (i fd : ℕ) → generous c i ≡ given fd → generous d i ≡ given fd → c ≡ d
generous-apart timerfd_create d i fd e f = ground arith
generous-apart epoll_create1 d i fd e f = ground arith
generous-apart async_eventfd d i fd e f = ground arith
generous-apart sync_eventfd d i fd e f = ground arith

generous-IsFresh : IsFresh generous
generous-IsFresh = record { positive = generous-positive; apart = generous-apart }

new_reactor_lem_example :
    Builds
      (λ b.
        BuiltTo {Item = ℕ} {Op = ℕ} 0 0 willing generous handlers (set_options two) 2 2 b
        × ((effects : List Effect) → IsReady (as_world b effects)))
      (Because willing generous 2)
      (new_reactor 0 0 willing generous handlers two)
unfolding set_options
new_reactor_lem_example =
    new_reactor_lem 0 0 willing generous handlers two 2 two-Provided refl generous-IsFresh
      (λ i low. (3 + 4 * i, refl))

new_reactor_leaks_example :
    new_reactor {Item = ℕ} {Op = ℕ} 0 0 willing at_limit handlers two []
    ≡ ok (failed (async_eventfd_failed 24), opened 3 ∷ opened 4 ∷ [])
new_reactor_leaks_example =
    new_reactor_leaks 0 0 willing at_limit handlers two 3 4 24 two-Provided refl refl refl
