-- ===== src/Ring/Grow.antt =====
-- `grow` on a full ring: the items keep their order from index 0 of a buffer twice as long.
use goev.Prelude.{
  ℕ, ◌+◌, ◌-◌, ◌*◌, ◌≤◌, ◌<◌, ◌≡◌, ◌∙◌, ap, refl, List, ◌++◌, arith, ltb, if◌then◌else◌, length,
  get_or, take, drop, replicate, copy, length-append, length-take, length-drop, length-replicate,
  length-copy, get_or-append, get_or-take, get_or-drop, get_or-copy, tabulate_ext, dec_lt,
}
use goev.Ring.{RingBuffer, grow}
use goev.Ring.Bounds.{IsValid, mod_wrap, contents}

module _ {ℓ} {A : Type ℓ} where
  -- The two `copy` calls on a buffer with a turning point at `h`.
  turned : List A → List A → ℕ → List A
  turned buf fresh h =
      let n = length (drop h buf) in
      take n (copy fresh (drop h buf)) ++ copy (drop n (copy fresh (drop h buf))) (take h buf)

  length-turned :
      (buf fresh : List A) (h : ℕ)
      → length buf ≤ length fresh
      → length (turned buf fresh h) ≡ length fresh
  unfolding turned
  length-turned buf fresh h p =
      let n = length (drop h buf) in
      let once = copy fresh (drop h buf) in
      omega (
        arith,
        length-append (take n once) (copy (drop n once) (take h buf)),
        length-take n once,
        length-copy fresh (drop h buf),
        length-copy (drop n once) (take h buf),
        length-drop n once,
        length-drop h buf,
      )

  get_or-turned :
      (buf fresh : List A) (h k : ℕ) (d : A)
      → length buf ≤ length fresh
      → h ≤ length buf
      → k < length buf
      → get_or (turned buf fresh h) k d
        ≡ get_or buf (if ltb (h + k) (length buf) then h + k else h + k - length buf) d
  unfolding turned
  get_or-turned buf fresh h k d p q r =
      let n = length (drop h buf) in
      let once = copy fresh (drop h buf) in
      let size : n ≡ length buf - h = length-drop h buf in
      let left : length (take n once) ≡ n =
        omega (arith, length-take n once, length-copy fresh (drop h buf), length-drop h buf) in
      let right : length (take h buf) ≡ h = omega (arith, length-take h buf) in
      let room : length (drop n once) ≡ length fresh - n =
        omega (arith, length-drop n once, length-copy fresh (drop h buf)) in
      elim (dec_lt k n) [
        | yes l ↦ ground (
          arith,
          get_or-append (take n once) (copy (drop n once) (take h buf)) k d,
          get_or-take n once k d,
          get_or-copy fresh (drop h buf) k d,
          get_or-drop h buf k d,
        )
        | no l ↦
            let back : n + (k - n) ≡ k = omega arith in
            let turn : h + k - length buf ≡ k - n = omega arith in
            ground (
              arith,
              get_or-append (take n once) (copy (drop n once) (take h buf)) k d,
              get_or-copy (drop n once) (take h buf) (k - n) d,
              get_or-take h buf (k - n) d,
            )
      ]

  full_tail : {rb : RingBuffer A} → IsValid rb → rb.len ≡ rb.size → rb.tail ≡ rb.head
  full_tail {rb} v e =
      ground (arith, v.tail_at, mod_wrap rb.head rb.len rb.size v.head_in v.len_in, v.head_in)

  -- What `grow` makes of a full ring, with the copies written out.
  grow_full :
      {rb : RingBuffer A}
      → IsValid rb
      → rb.len ≡ rb.size
      → grow rb ≡ record rb {
        size = rb.size * 2;
        head = 0;
        tail = rb.size;
        buffer = turned rb.buffer (replicate (rb.size * 2) rb.zero_value) rb.head;
      }
  unfolding grow turned
  grow_full {rb} v e = ground (
    arith,
    full_tail v e,
    length-drop rb.head rb.buffer,
    length-take rb.head rb.buffer,
    v.sized,
    v.head_in,
  )

  -- The ring after `grow` has the same items, and room for one more.
  pub grow_lem :
      {rb : RingBuffer A}
      → IsValid rb
      → rb.len ≡ rb.size
      → IsValid (grow rb)
        × (contents (grow rb) ≡ contents rb)
        × (grow rb).len ≡ rb.len
        × (grow rb).size ≡ rb.size * 2
  grow_lem {rb} v e =
      let fresh = replicate (rb.size * 2) rb.zero_value in
      let whole : length fresh ≡ rb.size * 2 = length-replicate (rb.size * 2) rb.zero_value in
      rw (grow_full v e) (
        record {
          sized = omega (arith, length-turned rb.buffer fresh rb.head, v.sized);
          head_in = omega (arith, v.head_in);
          tail_at = ground (arith, mod_wrap 0 rb.len (rb.size * 2), v.head_in);
          len_in = omega arith;
        },
        tabulate_ext rb.len _ _ λ k l.
            ap (λ j. get_or (turned rb.buffer fresh rb.head) j rb.zero_value)
              (ground (arith, mod_wrap 0 k (rb.size * 2)))
            ∙ get_or-turned rb.buffer fresh rb.head k rb.zero_value (omega arith) (omega arith)
                (omega arith)
            ∙ ap (λ j. get_or rb.buffer j rb.zero_value)
                (ground (arith, mod_wrap rb.head k rb.size)),
        refl,
        refl,
      )
