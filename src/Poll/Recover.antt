-- ===== src/Poll/Recover.antt =====
-- append that the kernel refuses: which events the handler keeps.
use mathlib.Core.Path.{fun_ext}
use goev.Prelude.{ℕ, ◌≡◌, ◌↔◌, ap, arith, false, ◌&&◌, some}
use goev.Mask.{Mask, union, clear}
use goev.EvData.{Loc, read, load}
use goev.EvData.Laws.{IsValid, read-write}
use goev.Poll.{EvPoll, Kernel, ctl_mod, append}
use goev.Poll.Change.{modify_refused}

-- The two masks have no bit in common.
abbrev pub IsDisjoint : Mask → Mask → Type 0
IsDisjoint a b = (k : ℕ) → (a k && b k) ≡ false

undo_iff : (old e : Mask) → (clear (union old e) e ≡ old) ↔ IsDisjoint old e
undo_iff old e =
    ((λ same k. ground (arith, ap (λ m. m k) same)), λ apart. fun_ext λ k. ground (arith, apart k))

-- If the kernel refuses the events that `append` adds, the saved events are the old ones again exactly
-- if none of the added ones was registered before.
pub append_restores_iff :
    (kernel : Kernel) (fd errno : ℕ) (l : Loc) (events : Mask) (p : EvPoll)
    → IsValid p.ev_handler_map
    → load fd p.ev_handler_map ≡ some l
    → kernel ctl_mod fd p.interest ≡ some errno
    → ((read l (append kernel fd events p).1.ev_handler_map).events
        ≡ (read l p.ev_handler_map).events)
      ↔ IsDisjoint (read l p.ev_handler_map).events events
unfolding append
append_restores_iff kernel fd errno l events p v found no_way =
    let old = (read l p.ev_handler_map).events in
    rw
      (
        found,
        append,
        modify_refused kernel fd p v l (union old events) (clear (union old events) events) errno
            no_way,
        read-write l,
      )
      (undo_iff old events)
