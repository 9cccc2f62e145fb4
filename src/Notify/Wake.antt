-- ===== src/Notify/Wake.antt =====
-- The wake-ups of the poller, when nothing interrupts push and OnRead, and what a call of OnRead leaves
-- behind.
use goev.Prelude.{
  ℕ, ◌+◌, ◌≤◌, ◌<◌, ◌≡◌, ◌==◌, refl, sym, ap, ap₂, append-nil, ◌∙◌, arith, true, false, not, ◌∷◌,
  ◌++◌, if◌then◌else◌, Ends, ends, Ends-bind, Ends-both, Ends-weaken, Bool-cases, List, [], length,
  length-append, append_assoc, Run, ok, ◌>>=◌, inl, inr,
}
use goev.Ring.{RingBuffer}
use goev.Ring.Refine.{push_back_refines}
use goev.Ring.Bounds.{contents, length-contents}
use goev.Notify.{Notifier, enqueue, notify, swap_queues, read_efd, clear_notified, push, on_read}
use goev.Notify.Order.{
  IsValid, history, Extends, enqueue_lem, swap_queues_lem, hand_over_lem, no_items,
}

module _ {ℓ} {A : Type ℓ} where
  -- Between the calls: `notified` says that the eventfd has a value, and then only may items wait.
  pub record IsAwake (q : Notifier A) : Type 0 where
    pub told : q.notified ≡ not (q.counter == 0)
    pub waiting : q.counter ≡ 0 → (q.readq.len ≡ 0) × (q.writeq.len ≡ 0)

  notify_woken : (q : Notifier A) → q.notified ≡ true → notify q ≡ q
  unfolding notify
  notify_woken q e =
      ap (λ b. if b then q else record q { notified = true; counter = q.counter + 1 }) e

  notify_idle :
      (q : Notifier A)
      → q.notified ≡ false
      → notify q ≡ record q { notified = true; counter = q.counter + 1 }
  unfolding notify
  notify_idle q e =
      ap (λ b. if b then q else record q { notified = true; counter = q.counter + 1 }) e

  -- OnRead with items left in `readq` from the call before, no more than its limit, hands all of them
  -- over, and then clears the eventfd and `notified` although the items in `writeq` still wait. No
  -- other goroutine has to run in between for that.
  pub leftover_strands :
      (limit : ℕ) (q : Notifier A)
      → IsValid q
      → 0 < q.readq.len
      → q.readq.len ≤ limit
      → 0 < q.counter
      → Ends
          (λ q'.
            (q'.writeq ≡ q.writeq) × (q'.readq.len ≡ 0) × (q'.counter ≡ 0) × (q'.notified ≡ false))
          (on_read limit q)
  unfolding on_read swap_queues read_efd clear_notified
  leftover_strands limit q v some_left fits signalled =
      let held : (q.readq.len == 0) ≡ false = ground arith in
      rw held (
        Ends-bind (hand_over_lem limit q v) λ u h.
          let done : (u.readq.len == 0) ≡ true = ground (arith, h.left) in
          let got : (u.counter == 0) ≡ false = ground (arith, h.signal.0) in
          rw (done, got) (ends (h.writes_kept, ground arith, refl, refl)))

  -- A push that is not interrupted, on queues where `notified` says whether the eventfd has a value and
  -- items wait only where it has, returns, appends its item, leaves the queues in such a state again,
  -- and the eventfd with a value.
  pub push_lem :
      (x : A) (q : Notifier A)
      → IsValid q
      → IsAwake q
      → Ends (λ q'. Extends (x ∷ []) q q' × IsAwake q' × (0 < q'.counter)) (push x q)
  unfolding push
  push_lem x q v a = Ends-bind (enqueue_lem x q v) λ u (e, s). elim (Bool-cases u.notified) [
    | inl woken ↦
        let up : 0 < u.counter = ground (arith, a.told, s) in
        rw (notify_woken u woken) (
          ends (
            e,
            record { told = ground (arith, a.told, s); waiting = λ z. absurd (omega arith) },
            up,
          ))
    | inr idle ↦ rw (notify_idle u idle) (
        ends (
          (record { reads = e.0.reads; writes = e.0.writes }, e.1),
          record { told = ground arith; waiting = λ z. absurd (omega arith) },
          omega arith,
        ))
  ]

  -- OnRead, not interrupted, on queues of which `readq` is empty and `writeq` holds no more than the
  -- limit, with an event: it hands over every item in order, and no event is left.
  pub on_read_drains :
      (limit : ℕ) (q : Notifier A)
      → IsValid q
      → q.readq.len ≡ 0
      → q.writeq.len ≤ limit
      → 0 < q.counter
      → Ends
          (λ q'.
            (q'.handed ≡ history q)
            × IsValid q'
            × IsAwake q'
            × (q'.readq.len ≡ 0)
            × (q'.writeq.len ≡ 0)
            × (q'.counter ≡ 0))
          (on_read limit q)
  unfolding on_read swap_queues read_efd clear_notified
  on_read_drains limit q v empty fits signalled =
      let swaps : (q.readq.len == 0) ≡ true = ground arith in
      let s = swap_queues_lem q v in
      rw swaps (
        Ends-bind
          (hand_over_lem limit (record q { readq = q.writeq; writeq = q.readq })
            (record { reads = v.writes; writes = v.reads }))
          λ u h.
            let done : (u.readq.len == 0) ≡ true = ground (arith, h.left) in
            let got : (u.counter == 0) ≡ false = ground (arith, h.signal.0) in
            let gone = no_items q.readq swaps in
            let all_handed : u.handed ≡ history q =
              sym (append-nil u.handed)
              ∙ sym (
                  ap₂ (λ a b. u.handed ++ (a ++ b)) (no_items u.readq done)
                    (ap contents h.writes_kept ∙ gone))
              ∙ h.kept.1
              ∙ append-nil _
              ∙ ap (λ a. q.handed ++ (contents q.writeq ++ a)) gone
              ∙ ap (λ a. q.handed ++ a) (append-nil (contents q.writeq))
              ∙ sym (ap (λ a. q.handed ++ (a ++ contents q.writeq)) gone) in
            let read_out : u.readq.len ≡ 0 = ground arith in
            let written_out : u.writeq.len ≡ 0 = ap (λ r. r.len) h.writes_kept ∙ empty in
            rw (done, got)
              (ends (
                all_handed,
                record { reads = h.kept.0.reads; writes = h.kept.0.writes },
                record { told = refl; waiting = λ z. (read_out, written_out) },
                read_out,
                written_out,
                refl,
              )))

  push_size :
      (x : A) (q : Notifier A)
      → IsValid q
      → Ends (λ q'. (q'.readq.len ≡ q.readq.len) × (q'.writeq.len ≡ q.writeq.len + 1)) (push x q)
  unfolding push enqueue
  push_size x q v =
      Ends-bind
        (Ends-bind (push_back_refines q.writeq x v.writes)
          λ w r. ends {a = record q { writeq = w }} (refl, one_longer w r.1))
        λ u s. elim (Bool-cases u.notified) [
          | inl woken ↦ rw (notify_woken u woken) (ends s)
          | inr idle ↦ rw (notify_idle u idle) (ends s)
        ]
    where
      one_longer :
          (w : RingBuffer A) → contents w ≡ contents q.writeq ++ (x ∷ []) → w.len ≡ q.writeq.len + 1
      one_longer w e = omega (
        arith,
        length-contents w,
        length-contents q.writeq,
        ap length e,
        length-append (contents q.writeq) (x ∷ []),
      )

  -- Pushes one after the other.
  abbrev pub push_all : List A → Notifier A → Run (Notifier A)
  push_all [] q = ok q
  push_all (x ∷ xs) q = push x q >>= push_all xs

  push_all_lem :
      (x : A) (xs : List A) (q : Notifier A)
      → IsValid q
      → IsAwake q
      → Ends
          (λ q'.
            Extends (x ∷ xs) q q'
            × IsAwake q'
            × (0 < q'.counter)
            × (q'.readq.len ≡ q.readq.len)
            × (q'.writeq.len ≡ q.writeq.len + length (x ∷ xs)))
          (push_all (x ∷ xs) q)
  push_all_lem x [] q v a =
      Ends-bind (Ends-both (push_lem x q v a) (push_size x q v))
        λ q' ((e, b, c), (r, w)). ends (e, b, c, r, omega (arith, w))
  push_all_lem x (y ∷ ys) q v a =
      Ends-bind (Ends-both (push_lem x q v a) (push_size x q v)) λ q' ((e, b, c), (r, w)).
        Ends-weaken (push_all_lem y ys q' e.0 b) λ q'' (e', b', c', r', w'). (
          (e'.0, e'.1 ∙ ap (λ xs. xs ++ (y ∷ ys)) e.1 ∙ append_assoc (history q) (x ∷ []) (y ∷ ys)),
          b',
          c',
          r' ∙ r,
          omega (arith, w, w'),
        )

  -- Whatever is pushed between two calls of OnRead is handed over by the next: on queues of which `readq` is empty,
  -- where `notified` says whether the eventfd has a value and items wait only where it has, one or more
  -- pushes, not interrupted, that leave no more than the limit in `writeq`, leave an event; and OnRead then
  -- hands over all items, in order, and leaves the queues empty and in such a state again.
  pub push_all-on_read :
      (limit : ℕ) (x : A) (xs : List A) (q : Notifier A)
      → IsValid q
      → IsAwake q
      → q.readq.len ≡ 0
      → q.writeq.len + length (x ∷ xs) ≤ limit
      → Ends
          (λ q'.
            (q'.handed ≡ history q ++ (x ∷ xs))
            × IsValid q'
            × IsAwake q'
            × (q'.readq.len ≡ 0)
            × (q'.writeq.len ≡ 0))
          (push_all (x ∷ xs) q >>= on_read limit)
  push_all-on_read limit x xs q v a empty fits =
      Ends-bind (push_all_lem x xs q v a) λ u (e, b, c, r, w).
        Ends-weaken (on_read_drains limit u e.0 (r ∙ empty) (omega (arith, w)) c)
          λ q' (h, v', b', r', w', c'). (h ∙ e.1, v', b', r', w')
