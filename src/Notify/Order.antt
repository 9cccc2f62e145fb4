-- ===== src/Notify/Order.antt =====
-- The order of the items under every interleaving.
use goev.Prelude.{
  ℕ, zero, suc, ◌-◌, ◌≡◌, ◌==◌, refl, sym, ap, ◌∙◌, arith, Bool, true, false, Option, none, some,
  List, [], ◌∷◌, ◌++◌, append_assoc, append-nil, if◌then◌else◌, length, ok, Ends, ends, Ends-bind,
  Ends-weaken, Bool-cases, inl, inr,
}
use goev.Ring.{RingBuffer}
use goev.Ring.Bounds.{contents, length-contents, new-IsValid}
use goev.Ring.Bounds as Bounds
use goev.Ring.Refine.{uncons, none_left, push_back_refines, pop_front_refines}
use goev.Notify.{
  Notifier, enqueue, notify, swap_queues, hand_over, read_efd, clear_notified, Act, act_enqueue,
  act_notify, act_swap, act_hand_over, act_read_efd, act_clear, act, acts,
}

module _ {ℓ} {A : Type ℓ} where
  pub record IsValid (q : Notifier A) : Type 0 where
    pub reads : Bounds.IsValid q.readq
    pub writes : Bounds.IsValid q.writeq

  -- Everything that was pushed, in the order of the poller: handed over, then waiting.
  abbrev pub history : Notifier A → List A
  history q = q.handed ++ (contents q.readq ++ contents q.writeq)

  -- The items that an act or an interleaving pushes.
  abbrev pub pushed : Act A → List A
  pushed (act_enqueue x) = x ∷ []
  pushed act_notify = []
  pushed act_swap = []
  pushed (act_hand_over n) = []
  pushed act_read_efd = []
  pushed act_clear = []

  abbrev pub all_pushed : List (Act A) → List A
  all_pushed [] = []
  all_pushed (a ∷ more) = pushed a ++ all_pushed more

  -- What keeps the order of `q` and adds `xs` at its end.
  abbrev pub Extends : List A → Notifier A → Notifier A → Type ℓ
  Extends xs q q' = IsValid q' × (history q' ≡ history q ++ xs)

  pub no_items : (r : RingBuffer A) → (r.len == 0) ≡ true → contents r ≡ []
  no_items r e = empty_of_length (contents r) (ground (arith, length-contents r))
    where
      empty_of_length : (xs : List A) → length xs ≡ 0 → xs ≡ []
      empty_of_length [] h = refl
      empty_of_length (x ∷ xs) h = absurd (omega arith)

  pub enqueue_lem :
      (x : A) (q : Notifier A)
      → IsValid q
      → Ends
          (λ u. Extends (x ∷ []) q u × ((u.counter ≡ q.counter) × (u.notified ≡ q.notified)))
          (enqueue x q)
  unfolding enqueue
  enqueue_lem x q v = Ends-bind (push_back_refines q.writeq x v.writes) λ w r. ends (
    (
      record { reads = v.reads; writes = r.0 },
      ap (λ xs. q.handed ++ (contents q.readq ++ xs)) r.1
          ∙ sym (
              append_assoc q.handed (contents q.readq ++ contents q.writeq) (x ∷ [])
              ∙ ap (λ xs. q.handed ++ xs)
                  (append_assoc (contents q.readq) (contents q.writeq) (x ∷ []))),
    ),
    (refl, refl),
  )

  pub swap_queues_lem : (q : Notifier A) → IsValid q → Extends [] q (swap_queues q)
  unfolding swap_queues
  swap_queues_lem q v = elim (Bool-cases (q.readq.len == 0)) [
    | inl empty ↦ rw empty (
      record { reads = v.writes; writes = v.reads },
      rw (
        no_items q.readq empty,
        append-nil (contents q.writeq),
        append-nil (q.handed ++ contents q.writeq),
      ),
    )
    | inr held ↦ rw held (v, sym (append-nil (history q)))
  ]

  length-uncons :
      (rest : List A) (item : Option A) (xs : List A)
      → (item, rest) ≡ uncons xs
      → length rest ≡ length xs - 1
  unfolding uncons
  length-uncons rest item [] e = ap (λ p. length p.1) e
  length-uncons rest item (x ∷ xs) e = ap (λ p. length p.1) e ∙ omega arith

  -- What the loop does with the result of PopFront.
  took : Notifier A → Option A → RingBuffer A → Notifier A
  took q none r = record q { readq = r }
  took q (some x) r = record q { readq = r; handed = q.handed ++ (x ∷ []) }

  took_items :
      (item : Option A) (rest xs : List A)
      → (item, rest) ≡ uncons xs
      → (hs ws : List A)
      → (elim item [ none ↦ hs | some x ↦ hs ++ (x ∷ []) ]) ++ (rest ++ ws) ≡ hs ++ (xs ++ ws)
  unfolding uncons
  took_items item rest [] e hs ws = rw (ap (λ p. p.0) e, ap (λ p. p.1) e)
  took_items item rest (x ∷ xs) e hs ws =
      rw (ap (λ p. p.0) e, ap (λ p. p.1) e) (append_assoc hs (x ∷ []) (xs ++ ws))

  took_lem :
      (q : Notifier A) (item : Option A) (r : RingBuffer A)
      → IsValid q
      → Bounds.IsValid r
      → (item, contents r) ≡ uncons (contents q.readq)
      → Extends [] q (took q item r)
  unfolding took
  took_lem q none r v w e = (
    record { reads = w; writes = v.writes },
    took_items none (contents r) (contents q.readq) e q.handed (contents q.writeq)
        ∙ sym (append-nil (history q)),
  )
  took_lem q (some x) r v w e = (
    record { reads = w; writes = v.writes },
    took_items (some x) (contents r) (contents q.readq) e q.handed (contents q.writeq)
        ∙ sym (append-nil (history q)),
  )

  -- The length after PopFront, from its contents.
  took_len :
      (q : Notifier A) (item : Option A) (r : RingBuffer A)
      → (item, contents r) ≡ uncons (contents q.readq)
      → (took q item r).readq.len ≡ q.readq.len - 1
  unfolding took
  took_len q none r e = omega (
    arith,
    length-contents r,
    length-contents q.readq,
    length-uncons (contents r) none (contents q.readq) e,
  )
  took_len q (some x) r e = omega (
    arith,
    length-contents r,
    length-contents q.readq,
    length-uncons (contents r) (some x) (contents q.readq) e,
  )

  pub Extends-trans :
      (xs ys : List A) (p q r : Notifier A)
      → Extends xs p q
      → Extends ys q r
      → Extends (xs ++ ys) p r
  Extends-trans xs ys p q r (v, e) (w, f) =
      (w, f ∙ ap (λ zs. zs ++ ys) e ∙ append_assoc (history p) xs ys)

  -- What `n` rounds of the loop leave: the first `n` items of `readq` are gone from it, and nothing
  -- else than them is touched.
  pub record Handed (n : ℕ) (q u : Notifier A) : Type ℓ where
    pub kept : Extends [] q u
    pub left : u.readq.len ≡ q.readq.len - n
    pub writes_kept : u.writeq ≡ q.writeq
    pub signal : (u.counter ≡ q.counter) × (u.notified ≡ q.notified)

  Handed-step :
      (n : ℕ) (q t u : Notifier A)
      → Extends [] q t
      → t.readq.len ≡ q.readq.len - 1
      → t.writeq ≡ q.writeq
      → (t.counter ≡ q.counter) × (t.notified ≡ q.notified)
      → Handed n t u
      → Handed (suc n) q u
  Handed-step n q t u e l w s h = record {
    kept = Extends-trans [] [] q t u e h.kept;
    left = omega (arith, h.left, l);
    writes_kept = h.writes_kept ∙ w;
    signal = (h.signal.0 ∙ s.0, h.signal.1 ∙ s.1);
  }

  pub hand_over_lem : (n : ℕ) (q : Notifier A) → IsValid q → Ends (Handed n q) (hand_over n q)
  unfolding hand_over took
  hand_over_lem zero q v = ends (record {
    kept = (v, sym (append-nil (history q)));
    left = omega arith;
    writes_kept = refl;
    signal = (refl, refl);
  })
  hand_over_lem (suc n) q v = Ends-bind (pop_front_refines q.readq v.reads) (next (hand_over_lem n))
    where
      next :
          ((u : Notifier A) → IsValid u → Ends (Handed n u) (hand_over n u))
          → (p : Option A × RingBuffer A)
          → Bounds.IsValid p.1
            × ((p.0, contents p.1) ≡ uncons (contents q.readq))
            × (p.1.size ≡ q.readq.size)
          → Ends (Handed (suc n) q) (elim p.0 [
            | none ↦ ok (record q { readq = p.1 })
            | some x ↦ hand_over n (record q { readq = p.1; handed = q.handed ++ (x ∷ []) })
          ])
      next ih (none, r) (w, e, s) = ends (record {
        kept = took_lem q none r v w e;
        left = omega (
          arith,
          length-contents r,
          length-contents q.readq,
          none_left (contents q.readq) (contents r) e,
        );
        writes_kept = refl;
        signal = (refl, refl);
      })
      next ih (some x, r) (w, e, s) =
          let t = took_lem q (some x) r v w e in
          Ends-weaken (ih _ t.0)
            λ u h. Handed-step n q _ u t (took_len q (some x) r e) refl (refl, refl) h

  either_Extends :
      (b : Bool) (q x y : Notifier A)
      → Extends [] q x
      → Extends [] q y
      → Extends [] q (if b then x else y)
  either_Extends true q x y p r = p
  either_Extends false q x y p r = r

  pub notify_lem : (q : Notifier A) → IsValid q → Extends [] q (notify q)
  unfolding notify
  notify_lem q v =
      either_Extends q.notified q q _ (v, sym (append-nil (history q)))
        (record { reads = v.reads; writes = v.writes }, sym (append-nil (history q)))

  act_lem : (a : Act A) (q : Notifier A) → IsValid q → Ends (Extends (pushed a) q) (act a q)
  unfolding act read_efd clear_notified
  act_lem (act_enqueue x) q v = Ends-weaken (enqueue_lem x q v) λ u e. e.0
  act_lem act_notify q v = ends (notify_lem q v)
  act_lem act_swap q v = ends (swap_queues_lem q v)
  act_lem (act_hand_over n) q v = Ends-weaken (hand_over_lem n q v) λ u h. h.kept
  act_lem act_read_efd q v =
      ends (record { reads = v.reads; writes = v.writes }, sym (append-nil (history q)))
  act_lem act_clear q v =
      ends (record { reads = v.reads; writes = v.writes }, sym (append-nil (history q)))

  -- Every interleaving of pushes and of the steps of OnRead returns from a valid state, and loses,
  -- repeats and reorders no item: the items handed over, followed by those in `readq` and those in
  -- `writeq`, are those of before followed by the pushed ones.
  pub acts_in_order :
      (more : List (Act A)) (q : Notifier A)
      → IsValid q
      → Ends (Extends (all_pushed more) q) (acts more q)
  unfolding acts
  acts_in_order [] q v = ends (v, sym (append-nil (history q)))
  acts_in_order (a ∷ more) q v = Ends-bind (act_lem a q v) λ u e.
      Ends-weaken (acts_in_order more u e.0)
        λ w f. Extends-trans (pushed a) (all_pushed more) q u w e f
