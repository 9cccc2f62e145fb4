-- ===== src/Timer/Schedule.antt =====
-- schedule: one more timer, and the timer descriptor armed for the first one due.
use mathlib.Core.List.{Mem, Perm, Nodup-cons, mem-cons}
use mathlib.Core.List.Perm
use mathlib.Core.Logic.Or
use native.Mathlib.Bridge.{le_prop}
use goev.Prelude.{
  ℕ, suc, ◌+◌, ◌-◌, ◌*◌, ◌≤◌, ◌<◌, ◌≡◌, ◌≢◌, refl, List, ◌∷◌, arith, ltb, ◌==◌, if◌then◌else◌,
  load-ok, length, get_or, length-perm, Ends, ends, Ends-bind, Option, none, some, Bool-cases,
  Option-cases, ◌⊎◌, inl, inr,
}
use goev.Prelude.Int.{ℤ, pos, negsuc}
use goev.Heap4
use goev.Heap4.Order.{IsHeap, root_least}
use goev.Timer.{Timer, key, update, schedule, schedule_item, ScheduleError}
use goev.Timer.Queue.{IsValid, IsHeap-ext, push_item_lem, get_or-Mem}
use goev.Timer.Pop.{least_of_Mem}

-- The delay that adjustTimerfd arms, in nanoseconds.
abbrev pub nanoseconds : ℕ → ℕ
nanoseconds delay = if ltb (delay * 1000 * 1000) 1 then 1 else delay * 1000 * 1000

-- What a successful schedule of `eh` leaves.
pub record Scheduled (now eh delay interval : ℕ) (t t' : Timer) : Type 0 where
  pub valid : IsValid t'
  pub one_more : Perm t'.fheap (t.next ∷ t.fheap)
  pub item :
      t'.items
      ≡ update t.items t.next
          (record { expired_at = now + delay; interval = interval; eh = some eh })
  pub linked : t'.ti ≡ update t.ti eh (some t.next)
  pub earliest : (b : ℕ) → Mem b t'.fheap → t'.timerfd_settime ≤ key t' b
  pub least : (a : ℕ) × Mem a t'.fheap × (t'.timerfd_settime ≡ key t' a)
  pub left_armed : t'.timerfd_settime ≡ t.timerfd_settime → t'.armed ≡ t.armed
  pub armed_at :
      (t'.timerfd_settime ≢ t.timerfd_settime)
      → t'.armed ≡ some (nanoseconds (t'.timerfd_settime - now))

module _ (now eh delay interval : ℕ) (t : Timer) (v : IsValid t) where
  abbrev born : Timer
  born = record t {
    items =
        update t.items t.next
          (record { expired_at = now + delay; interval = interval; eh = some eh });
    next = suc t.next;
  }

  not_allocated : ¬ (Mem t.next t.fheap)
  not_allocated m = absurd (omega (arith, v.allocated t.next m))

  -- The timer with the item in the heap and the handler linked to it.
  abbrev linked : List ℕ → Timer
  linked h = record born { fheap = h; ti = update t.ti eh (some t.next) }

  linked-IsValid :
      (h : List ℕ) (settime : ℕ) (armed : Option ℕ)
      → IsHeap (key born) h
      → Perm h (t.next ∷ t.fheap)
      → IsValid (record (linked h) { timerfd_settime = settime; armed = armed })
  linked-IsValid h settime armed ordered same = record {
    heap = ordered;
    distinct = Perm.nodup (Perm.symm same) (Nodup-cons.1 (not_allocated, v.distinct));
    allocated = λ a m.
        Or.elim le_prop (mem-cons.0 ((Perm.mem_iff same).0 m)) (λ e. omega arith)
          (λ r. omega (arith, v.allocated a r));
  }

  schedule_item_lem :
      Ends (Scheduled now eh delay interval t) (schedule_item now eh delay interval t)
  unfolding schedule_item
  schedule_item_lem =
      let (h, e, ordered, same) =
        push_item_lem t.next born
          (IsHeap-ext (key t) (key born) t.fheap (λ x m. ground (arith, v.allocated x m)) v.heap) in
      let low =
        least_of_Mem (key born) h (Heap4.pos (key born) h 0)
          (λ i p. root_least (key born) h i ordered p) in
      let some_item : 0 < length h = omega (arith, length-perm same) in
      let root = load-ok h 0 0 some_item in
      elim (Bool-cases (Heap4.pos (key born) h 0 == t.timerfd_settime)) [
        | inl already ↦
            rw (e, root, already)
              (ends (record {
                valid = linked-IsValid h t.timerfd_settime t.armed ordered same;
                one_more = same;
                item = refl;
                linked = refl;
                earliest = λ b m. ground (arith, low b m);
                least = (get_or h 0 0, get_or-Mem h 0 some_item, ground (arith, root));
                left_armed = λ _. refl;
                armed_at = λ ne. absurd (ne refl);
              }))
        | inr earlier ↦
            rw (e, root, earlier)
              (ends (record {
                valid = linked-IsValid h _ _ ordered same;
                one_more = same;
                item = refl;
                linked = refl;
                earliest = low;
                least = (get_or h 0 0, get_or-Mem h 0 some_item, refl);
                left_armed = λ e. absurd (ground arith);
                armed_at = λ ne. refl;
              }))
      ]

-- schedule on a valid timer, on every branch: a negative delay or interval and a handler that
-- already has a timer are refused and change nothing; otherwise the timer is added.
abbrev pub ScheduleSpec : ℕ → ℕ → ℤ → ℤ → Timer → Option ScheduleError × Timer → Type 0
ScheduleSpec now eh (negsuc _) _ t r = r ≡ (some ScheduleError.invalid_params, t)
ScheduleSpec now eh (pos _) (negsuc _) t r = r ≡ (some ScheduleError.invalid_params, t)
ScheduleSpec now eh (pos delay) (pos interval) t (err, t') =
    ((t.ti eh ≢ none) × (err ≡ some ScheduleError.had_scheduled) × (t' ≡ t))
    ⊎ ((t.ti eh ≡ none) × (err ≡ none) × Scheduled now eh delay interval t t')

pub schedule_lem :
    (now eh : ℕ) (delay interval : ℤ) (t : Timer)
    → IsValid t
    → Ends (ScheduleSpec now eh delay interval t) (schedule now eh delay interval t)
unfolding schedule
schedule_lem now eh (negsuc _) interval t v = ends refl
schedule_lem now eh (pos delay) (negsuc _) t v = ends refl
schedule_lem now eh (pos delay) (pos interval) t v = elim (Option-cases (t.ti eh)) [
  | inl free ↦
      rw (free, schedule)
        (Ends-bind (schedule_item_lem now eh delay interval t v) λ t' s. ends (inr (free, refl, s)))
  | inr (a, held) ↦ rw (held, schedule) (ends (inl (ground arith, refl, refl)))
]
