-- ===== src/Ring/Refine.antt =====
-- A valid ring is the list of its items: each operation against its specification on lists.
use goev.Prelude.{
  ℕ, suc, ◌+◌, ◌-◌, ◌*◌, ◌%◌, ◌<◌, ◌≡◌, ◌∙◌, sym, ap, ap₂, refl, List, [], ◌∷◌, ◌++◌, arith, ◌==◌,
  if◌then◌else◌, length, get_or, set, tabulate, length-set, get_or-set_self, get_or-set_ne,
  tabulate_ext, tabulate-snoc, load-ok, store-ok, Option, none, some, Ends, ends, Bool-cases, inl,
  inr, ℕ_discrete,
}
use native.Mathlib.Nat.{mod-eq_of_lt, mod-eq-sub-mod}
use goev.Ring.{RingBuffer, grow, push_back, pop_front, push_front}
use goev.Ring.Bounds.{IsValid, mod_wrap, contents, tail-lt-size}
use goev.Ring.Grow.{grow_lem}

-- `PopFront` on the list of the items.
unfoldable pub uncons {ℓ} : {A : Type ℓ} → List A → Option A × List A
uncons [] = (none, [])
uncons (x ∷ xs) = (some x, xs)

prev_index : (h s : ℕ) → h < s → (s + h - 1) % s ≡ (if h == 0 then s - 1 else h - 1)
prev_index h s p = elim (ℕ_discrete h 0) [
  | yes e ↦ ground (arith, mod-eq_of_lt {n = s + h - 1} {m = s} (omega arith))
  | no e ↦ ground (
    arith,
    mod-eq-sub-mod {n = s + h - 1} {m = s} (omega arith),
    mod-eq_of_lt {n = s + h - 1 - s} {m = s} (omega arith),
  )
]

module _ {ℓ} {A : Type ℓ} where
  -- No item comes from an empty list only.
  pub none_left :
      (xs rest : List A) → (none, rest) ≡ uncons xs → (length xs ≡ 0) × (length rest ≡ 0)
  unfolding uncons
  none_left [] rest e = (refl, ap (λ p. length p.1) e)
  none_left (x ∷ xs) rest e = absurd (none-ne-some (ap (λ p. p.0) e))
    where
      none-ne-some : none ≡ some x → ⊥
      none-ne-some f = ground (arith, f)

  tabulate-last : (m n : ℕ) (f : ℕ → A) → m ≡ suc n → tabulate m f ≡ tabulate n f ++ (f n ∷ [])
  tabulate-last m n f e = ap (λ k. tabulate k f) e ∙ tabulate-snoc n f

  tabulate-first :
      (m n : ℕ) (f : ℕ → A) → m ≡ suc n → tabulate m f ≡ f 0 ∷ tabulate n (λ k. f (suc k))
  tabulate-first m n f e = ap (λ k. tabulate k f) e

  tabulate-none : (n : ℕ) (f : ℕ → A) → n ≡ 0 → tabulate n f ≡ []
  tabulate-none n f e = ap (λ k. tabulate k f) e

  abbrev appended : RingBuffer A → A → RingBuffer A
  appended r x = record r {
    buffer = set r.buffer r.tail x;
    tail = (r.tail + 1) % r.size;
    len = r.len + 1;
  }

  appended_lem :
      (r : RingBuffer A) (x : A)
      → IsValid r
      → r.len < r.size
      → IsValid (appended r x) × (contents (appended r x) ≡ contents r ++ (x ∷ []))
  appended_lem r x v h =
      let at = mod_wrap r.head r.len r.size v.head_in v.len_in in
      (
        record {
          sized = omega (arith, length-set r.buffer r.tail x, v.sized);
          head_in = v.head_in;
          tail_at = ground (
            arith,
            v.tail_at,
            at,
            v.head_in,
            mod_wrap r.tail 1 r.size,
            mod_wrap r.head (r.len + 1) r.size,
          );
          len_in = omega arith;
        },
        tabulate-last _ r.len _ (omega arith)
            ∙ ap₂ (λ xs y. xs ++ (y ∷ []))
                (tabulate_ext r.len _ _ λ k l.
                  get_or-set_ne r.buffer r.tail _ x r.zero_value
                    (ground (arith, v.tail_at, at, mod_wrap r.head k r.size, v.head_in)))
                (ap (λ i. get_or (set r.buffer r.tail x) i r.zero_value) (sym v.tail_at)
                  ∙ get_or-set_self r.buffer r.tail x r.zero_value
                      (omega (arith, tail-lt-size v, v.sized))),
      )

  abbrev before : RingBuffer A → ℕ
  before r = (r.size + r.head - 1) % r.size

  abbrev prepended : RingBuffer A → A → RingBuffer A
  prepended r x = record r { buffer = set r.buffer (before r) x; head = before r; len = r.len + 1 }

  prepended_lem :
      (r : RingBuffer A) (x : A)
      → IsValid r
      → r.len < r.size
      → IsValid (prepended r x) × (contents (prepended r x) ≡ x ∷ contents r)
  prepended_lem r x v h =
      let p = prev_index r.head r.size v.head_in in
      let p_in : before r < r.size = ground (arith, p, v.head_in) in
      (
        record {
          sized = omega (arith, length-set r.buffer (before r) x, v.sized);
          head_in = p_in;
          tail_at = ground (
            arith,
            v.tail_at,
            p,
            v.head_in,
            mod_wrap r.head r.len r.size,
            mod_wrap (before r) (r.len + 1) r.size,
          );
          len_in = omega arith;
        },
        tabulate-first _ r.len _ (omega arith)
            ∙ ap₂ ◌∷◌
                (ap (λ i. get_or (set r.buffer (before r) x) i r.zero_value)
                    (ground (arith, mod_wrap (before r) 0 r.size, p_in))
                  ∙ get_or-set_self r.buffer (before r) x r.zero_value
                      (omega (arith, p_in, v.sized)))
                (tabulate_ext r.len _ _ λ k l.
                  get_or-set_ne r.buffer (before r) _ x r.zero_value
                    (ground (arith, p, mod_wrap (before r) (suc k) r.size, v.head_in))
                  ∙ ap (λ i. get_or r.buffer i r.zero_value)
                      (ground (
                        arith,
                        p,
                        mod_wrap (before r) (suc k) r.size,
                        mod_wrap r.head k r.size,
                        v.head_in,
                      ))),
      )

  abbrev shortened : RingBuffer A → RingBuffer A
  shortened r = record r {
    buffer = set r.buffer r.head r.zero_value;
    head = (r.head + 1) % r.size;
    len = r.len - 1;
  }

  shortened_lem :
      (r : RingBuffer A)
      → IsValid r
      → 0 < r.len
      → IsValid (shortened r)
        × (get_or r.buffer r.head r.zero_value ∷ contents (shortened r) ≡ contents r)
  shortened_lem r v h =
      let q = mod_wrap r.head 1 r.size v.head_in (omega arith) in
      let q_in : (r.head + 1) % r.size < r.size = ground (arith, q, v.head_in) in
      (
        record {
          sized = omega (arith, length-set r.buffer r.head r.zero_value, v.sized);
          head_in = q_in;
          tail_at = ground (
            arith,
            v.tail_at,
            q,
            v.head_in,
            mod_wrap r.head r.len r.size,
            mod_wrap ((r.head + 1) % r.size) (r.len - 1) r.size,
          );
          len_in = omega (arith, v.len_in);
        },
        sym (
            tabulate-first _ (r.len - 1) _ (omega arith)
            ∙ ap₂ ◌∷◌
                (ap (λ i. get_or r.buffer i r.zero_value)
                  (ground (arith, mod_wrap r.head 0 r.size, v.head_in)))
                (tabulate_ext (r.len - 1) _ _ λ k l. sym (
                  get_or-set_ne r.buffer r.head _ r.zero_value r.zero_value (
                    ground
                      (arith, q, mod_wrap ((r.head + 1) % r.size) k r.size, v.head_in, v.len_in))
                  ∙ ap (λ i. get_or r.buffer i r.zero_value)
                      (ground (
                        arith,
                        q,
                        mod_wrap ((r.head + 1) % r.size) k r.size,
                        mod_wrap r.head (suc k) r.size,
                        v.head_in,
                        v.len_in,
                      ))))),
      )

  -- The ring that a push writes to.
  grown_if_full : RingBuffer A → RingBuffer A
  grown_if_full rb = if rb.len == rb.size then grow rb else rb

  grown_if_full_lem :
      (rb : RingBuffer A)
      → IsValid rb
      → IsValid (grown_if_full rb)
        × (contents (grown_if_full rb) ≡ contents rb)
        × ((grown_if_full rb).len < (grown_if_full rb).size)
        × ((grown_if_full rb).size ≡ (if rb.len == rb.size then rb.size * 2 else rb.size))
  unfolding grown_if_full
  grown_if_full_lem rb v = elim (Bool-cases (rb.len == rb.size)) [
    | inl full ↦
        let e : rb.len ≡ rb.size = ground arith in
        let g = grow_lem v e in rw full (g.0, g.1, omega (arith, g, v.head_in), g.3)
    | inr room ↦ rw room (v, refl, ground (arith, v.len_in), refl)
  ]

  -- `PushBack` on a valid ring returns, appends the item to the queue, keeps the ring valid, and
  -- doubles the capacity exactly when the ring was full.
  pub push_back_refines :
      (rb : RingBuffer A) (x : A)
      → IsValid rb
      → Ends
          (λ r.
            IsValid r
            × (contents r ≡ contents rb ++ (x ∷ []))
            × (r.size ≡ (if rb.len == rb.size then rb.size * 2 else rb.size)))
          (push_back rb x)
  unfolding push_back grown_if_full
  push_back_refines rb x v =
      let g = grown_if_full_lem rb v in
      let r = grown_if_full rb in
      let done = appended_lem r x g.0 g.2 in
      rw (store-ok r.buffer r.tail x (omega (arith, tail-lt-size g.0, g.0.sized)))
        (ends (done.0, rw (← g.1) done.1, g.3))

  -- `PushFront` on a valid ring returns, puts the item before the queue, keeps the ring valid, and
  -- doubles the capacity exactly when the ring was full.
  pub push_front_refines :
      (rb : RingBuffer A) (x : A)
      → IsValid rb
      → Ends
          (λ r.
            IsValid r
            × (contents r ≡ x ∷ contents rb)
            × (r.size ≡ (if rb.len == rb.size then rb.size * 2 else rb.size)))
          (push_front rb x)
  unfolding push_front grown_if_full
  push_front_refines rb x v =
      let g = grown_if_full_lem rb v in
      let r = grown_if_full rb in
      let done = prepended_lem r x g.0 g.2 in
      rw (store-ok r.buffer (before r) x (omega (arith, done.0.head_in, g.0.sized)))
        (ends (done.0, rw (← g.1) done.1, g.3))

  -- `PopFront` on a valid ring returns the first item and leaves the others in order, or returns no
  -- item and leaves an empty queue; the ring stays valid and keeps its capacity.
  pub pop_front_refines :
      (rb : RingBuffer A)
      → IsValid rb
      → Ends
          (λ (item, r).
            IsValid r × ((item, contents r) ≡ uncons (contents rb)) × (r.size ≡ rb.size))
          (pop_front rb)
  unfolding pop_front uncons
  pop_front_refines rb v = elim (Bool-cases (rb.len == 0)) [
    | inl none_left ↦
        let none_held : contents rb ≡ [] = tabulate-none rb.len _ (ground arith) in
        rw none_left (ends (v, rw none_held refl, refl))
    | inr some_left ↦
        let s = shortened_lem rb v (ground arith) in
        let inside : rb.head < length rb.buffer = omega (arith, v.sized, v.head_in) in
        rw
          (
            some_left,
            load-ok rb.buffer rb.head rb.zero_value inside,
            store-ok rb.buffer rb.head rb.zero_value inside,
          )
          (ends (s.0, rw (← s.1) refl, refl))
  ]
