-- ===== src/Timer/Fire.antt =====
-- One round of handleExpired with callbacks that leave the timers alone.
use mathlib.Core.Logic.Or
use mathlib.Core.List.{
  Mem, Mem-prop, Perm, Nodup, Nodup-cons, mem-cons, mem-cons_self, mem-cons_of_mem,
}
use mathlib.Core.List.Perm
use goev.Prelude.{
  ℕ, suc, ◌+◌, ◌≤◌, ◌<◌, ◌≡◌, ◌≢◌, ◌↔◌, refl, sym, ap, subst, List, ◌∷◌, arith, ltb, ◌&&◌,
  if◌then◌else◌, Ends, ends, Option, none, some, Bool, true, false, Bool-cases, Option-cases, inl,
  inr, ℕ_discrete,
}
use goev.Heap4.Order.{IsHeap}
use goev.Timer.{Timer, TimerItem, key, update, OnTimeout, fire, after_timeout}
use goev.Timer.Queue.{IsValid, IsHeap-ext, push_item_lem}
use goev.Timer.Due.{due, is_due, due-perm, due_ext}

module _ (answers : ℕ → ℕ → Bool) where
  -- A callback with the given answers, which neither schedules nor cancels timers.
  abbrev pub quiet : OnTimeout
  quiet eh now t = (answers eh now, t)

  -- A due item goes back if it is periodic, not cancelled, and its handler asks for it.
  abbrev pub repeats : ℕ → TimerItem → Bool
  repeats now item = elim item.eh [ none ↦ false | some eh ↦ answers eh now && ltb 0 item.interval ]

  -- Whether handleExpired keeps an item, and until when.
  abbrev pub stays : ℕ → TimerItem → Bool
  stays now item = if is_due now item.expired_at then repeats now item else true

  abbrev pub next_time : ℕ → TimerItem → ℕ
  next_time now item = if is_due now item.expired_at then now + item.interval else item.expired_at

  -- No period is within the tolerance.
  abbrev pub IsSlow : Timer → Type 0
  IsSlow t = (b : ℕ) → Mem b t.fheap → (0 < (t.items b).interval) → 2 < (t.items b).interval

  -- What the loop body makes of the popped item `a`.
  pub record Fired (now a : ℕ) (t t' : Timer) : Type 0 where
    pub valid : IsValid t'
    pub fewer : suc (due (key t') now t'.fheap) ≡ due (key t) now t.fheap
    pub inside : (b : ℕ) → Mem b t'.fheap → Mem b t.fheap
    pub who :
        (b : ℕ)
        → (Mem b t'.fheap × (stays now (t'.items b) ≡ true))
          ↔ (Mem b t.fheap × (stays now (t.items b) ≡ true))
    pub others : (b : ℕ) → b ≢ a → t'.items b ≡ t.items b
    pub period : (t'.items a).interval ≡ (t.items a).interval
    pub again_at : Mem a t'.fheap → key t' a ≡ now + (t.items a).interval

  module _ (now a : ℕ) (t : Timer) (h : List ℕ) (v : IsValid t) (slow : IsSlow t)
      (ordered : IsHeap (key t) h) (same : Perm (a ∷ h) t.fheap) (now_due : key t a ≤ now + 2) where
    both : (¬ (Mem a h)) × Nodup h
    both = Nodup-cons.0 (Perm.nodup (Perm.symm same) v.distinct)

    to_whole : (b : ℕ) → Mem b h → Mem b t.fheap
    to_whole b m = (Perm.mem_iff same).0 (mem-cons_of_mem a m)

    -- The item is not put back.
    dropped :
        (ti : ℕ → Option ℕ)
        → repeats now (t.items a) ≡ false
        → Fired now a t (record t { fheap = h; ti = ti })
    dropped ti over = record {
      valid = record {
        heap = ordered;
        distinct = both.1;
        allocated = λ b m. v.allocated b (to_whole b m);
      };
      fewer = ground (arith, due-perm (key t) now same);
      inside = to_whole;
      who = λ b. (
        (λ (m, s). (to_whole b m, s)),
        λ (m, s). (
          Or.elim Mem-prop (mem-cons.0 ((Perm.mem_iff same).1 m)) (λ e. absurd (gone b e s))
              (λ r. r),
          s,
        ),
      );
      others = λ b ne. refl;
      period = refl;
      again_at = λ m. absurd (both.0 m);
    }
      where
        gone : (b : ℕ) → b ≡ a → stays now (t.items b) ≡ true → ⊥
        gone b e s = ground (arith, ap t.items e)

    -- The item with its next deadline.
    abbrev renewed : ℕ → TimerItem
    renewed = update t.items a (record (t.items a) { expired_at = now + (t.items a).interval })

    -- The item is put back.
    requeued :
        (g : List ℕ)
        → repeats now (t.items a) ≡ true
        → IsHeap (λ b. (renewed b).expired_at) g
        → Perm g (a ∷ h)
        → Fired now a t (record t { fheap = g; items = renewed })
    requeued g again heap back =
        let whole = Perm.trans back same in
        let k = λ (b : ℕ). (renewed b).expired_at in
        let apart = λ (b : ℕ) (m : Mem b h). not_self b m in
        let long : 2 < (t.items a).interval =
          slow a ((Perm.mem_iff same).0 mem-cons_self) (positive again) in
        record {
          valid = record {
            heap = heap;
            distinct = Perm.nodup (Perm.symm whole) v.distinct;
            allocated = λ b m. v.allocated b ((Perm.mem_iff whole).0 m);
          };
          fewer = ground (
            arith,
            due-perm (key t) now same,
            due-perm k now back,
            due_ext (key t) k now h (λ x m. ground (arith, apart x m)),
          );
          inside = λ b m. (Perm.mem_iff whole).0 m;
          who = λ b. (
            (λ (m, s). ((Perm.mem_iff whole).0 m, before b s)),
            λ (m, s). ((Perm.mem_iff whole).1 m, after b s long),
          );
          others = λ b ne. ground arith;
          period = ground arith;
          again_at = λ m. ground arith;
        }
      where
        not_self : (b : ℕ) → Mem b h → a ≢ b
        not_self b m e = both.0 (rw (sym e) at m)

        positive : repeats now (t.items a) ≡ true → 0 < (t.items a).interval
        positive r = ground arith

        renewed_other : (b : ℕ) → a ≢ b → renewed b ≡ t.items b
        renewed_other b ne = ground arith

        before : (b : ℕ) → stays now (renewed b) ≡ true → stays now (t.items b) ≡ true
        before b s = elim (ℕ_discrete a b) [
          | yes e ↦ rw (← e) (ground arith)
          | no ne ↦ subst (λ x. stays now x ≡ true) (renewed_other b ne) s
        ]

        after :
            (b : ℕ)
            → stays now (t.items b) ≡ true
            → 2 < (t.items a).interval
            → stays now (renewed b) ≡ true
        after b s l = elim (ℕ_discrete a b) [
          | yes e ↦ rw (← e) (ground arith)
          | no ne ↦ subst (λ x. stays now x ≡ true) (sym (renewed_other b ne)) s
        ]

    pub fire_lem : Ends (Fired now a t) (fire quiet now a (record t { fheap = h }))
    unfolding fire after_timeout
    fire_lem = elim (Option-cases (t.items a).eh) [
      | inl cancelled ↦ rw cancelled (ends (dropped t.ti (rw cancelled)))
      | inr (eh, held) ↦ rw held (elim (Bool-cases (answers eh now && ltb 0 (t.items a).interval)) [
        | inl again ↦
            let start : Timer = record t { fheap = h; items = renewed } in
            let (g, e, heap, back) =
              push_item_lem a start
                (IsHeap-ext (key t) (key start) h (λ x m. ground (arith, not_a x m)) ordered) in
            rw (again, e) (ends (requeued g (rw (held, again)) heap back))
        | inr over ↦ rw (over, held) (ends (dropped _ (rw (held, over))))
      ])
    ]
      where
        not_a : (x : ℕ) → Mem x h → a ≢ x
        not_a x m e = both.0 (rw (sym e) at m)
