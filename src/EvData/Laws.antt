-- ===== src/EvData/Laws.antt =====
-- evDataMap as a finite map from descriptors to their data.
use goev.Prelude.{
  ℕ, suc, ◌≤◌, ◌<◌, ◌≡◌, ◌≢◌, refl, sym, ap, ◌∙◌, arith, true, false, Option, none, some, ltb, ◌==◌,
  if◌then◌else◌, Run, ok, panic, ◌>>=◌, Ends, ends, Bool-cases, Option-cases, inl, inr, ℕ_discrete,
  Ends-of_eq,
}
use goev.EvData.{
  EvData, Loc, slot, cell, EvDataMap, update, is_pos, read, write, new_one, load, store, del, blank,
}
use mathlib.Core.Path.{fun_ext}

-- The map owns its cells: each pointer in it is an allocated cell, of one descriptor only, and in use.
pub record IsValid (m : EvDataMap) : Type 0 where
  pub owned : (i : ℕ) (l : Loc) → m.s_map i ≡ some l → (a : ℕ) × (l ≡ cell a) × (a < m.next)
  pub apart : (i j : ℕ) (l : Loc) → m.s_map i ≡ some l → m.s_map j ≡ some l → i ≡ j
  pub live : (i : ℕ) (l : Loc) → m.s_map i ≡ some l → is_pos (read l m).fd ≡ true

-- What `load` finds: the pointer, and the data behind it.
abbrev pub entry : ℕ → EvDataMap → Option (Loc × EvData)
entry i m = elim (load i m) [ none ↦ none | some l ↦ some (l, read l m) ]

-- The calls of `add` on the map: `newOne`, the writes through the pointer, `store`.
unfoldable pub register : ℕ → EvData → EvDataMap → Run (Loc × EvDataMap)
unfolding new_one store
register i d m = do (l, fresh) ← new_one i m; ok (l, store i l (write l d fresh))

module _ (i : ℕ) (d : EvData) (m : EvDataMap) (v : IsValid m) (used : is_pos d.fd ≡ true) where
  not_fresh : (k : ℕ) (l : Loc) → m.s_map k ≡ some l → l ≢ cell m.next
  not_fresh k l e f = let (a, p, q) = v.owned k l e in ground arith

  abbrev allocated : EvDataMap
  allocated = record m {
    cells = update m.cells m.next d;
    next = suc m.next;
    s_map = update m.s_map i (some (cell m.next));
  }

  allocated-IsValid : m.arr_size ≤ i → IsValid allocated
  allocated-IsValid high = record {
    owned = λ j l e. elim (ℕ_discrete i j) [
      | yes here ↦ (m.next, ground arith, omega arith)
      | no away ↦ let (a, p, q) = v.owned j l (ground arith) in (a, p, omega arith)
    ];
    apart = λ j k l e f. elim (ℕ_discrete i j) [
      | yes p ↦ elim (ℕ_discrete i k) [
        | yes q ↦ sym p ∙ q
        | no q ↦ absurd (not_fresh k l (ground arith) (ground arith))
      ]
      | no p ↦ elim (ℕ_discrete i k) [
        | yes q ↦ absurd (not_fresh j l (ground arith) (ground arith))
        | no q ↦ v.apart j k l (ground arith) (ground arith)
      ]
    ];
    live = λ j l e. elim (ℕ_discrete i j) [
      | yes here ↦ ground arith
      | no away ↦
          let old : m.s_map j ≡ some l = ground arith in
          let (a, p, q) = v.owned j l old in ground (arith, v.live j l old)
    ];
  }

  entry-allocated :
      m.arr_size ≤ i
      → (j : ℕ) → entry j allocated ≡ (if i == j then some (cell m.next, d) else entry j m)
  unfolding load
  entry-allocated high j = elim (Option-cases (m.s_map j)) [
    | inl empty ↦ ground arith
    | inr (l, held) ↦ let (a, p, q) = v.owned j l held in ground arith
  ]

-- Writing through the pointer of a descriptor changes that descriptor's data only.
pub entry-write :
    (i j : ℕ) (l : Loc) (d : EvData) (m : EvDataMap)
    → IsValid m
    → is_pos d.fd ≡ true
    → load i m ≡ some l
    → entry j (write l d m) ≡ (if i == j then some (l, d) else entry j m)
unfolding load
entry-write i j l d m v used found = elim (Option-cases (m.s_map j)) [
  | inl empty ↦ elim (Option-cases (m.s_map i)) [
    | inl nothing ↦ ground arith
    | inr (k, held) ↦ let (a, p, q) = v.owned i k held in ground arith
  ]
  | inr (l', held') ↦
      let (a', p', q') = v.owned j l' held' in
      elim (Option-cases (m.s_map i)) [
        | inl nothing ↦ ground arith
        | inr (k, held) ↦ let (a, p, q) = v.owned i k held in ground (arith, v.apart i j k)
      ]
]

-- `del` forgets the descriptor and nothing else.
pub entry-del :
    (i j : ℕ) (m : EvDataMap) → IsValid m → entry j (del i m) ≡ (if i == j then none else entry j m)
unfolding load del
entry-del i j m v = elim (Option-cases (m.s_map j)) [
  | inl empty ↦ ground arith
  | inr (l, held) ↦ let (a, p, q) = v.owned j l held in ground arith
]

pub del-IsValid : (i : ℕ) (m : EvDataMap) → IsValid m → IsValid (del i m)
unfolding del
del-IsValid i m v = record {
  owned = λ j l e.
      let old : m.s_map j ≡ some l = ground arith in
      let (a, p, q) = v.owned j l old in (a, p, ground arith);
  apart = λ j k l e f. v.apart j k l (ground arith) (ground arith);
  live = λ j l e.
      let old : m.s_map j ≡ some l = ground arith in
      let (a, p, q) = v.owned j l old in ground (arith, v.live j l old);
}

pub write-IsValid :
    (l : Loc) (d : EvData) (m : EvDataMap) → IsValid m → is_pos d.fd ≡ true → IsValid (write l d m)
write-IsValid (slot i) d m v used = record {
  owned = v.owned;
  apart = v.apart;
  live = λ j l e. let (a, p, q) = v.owned j l e in ground (arith, v.live j l e);
}
write-IsValid (cell b) d m v used = record {
  owned = v.owned;
  apart = v.apart;
  live = λ j l e. let (a, p, q) = v.owned j l e in ground (arith, v.live j l e);
}

pub read-write : (l : Loc) (d : EvData) (m : EvDataMap) → read l (write l d m) ≡ d
read-write (slot i) d m = ground arith
read-write (cell a) d m = ground arith

-- What `load` finds is in use.
pub load_live :
    (i : ℕ) (l : Loc) (m : EvDataMap) → IsValid m → load i m ≡ some l → is_pos (read l m).fd ≡ true
unfolding load
load_live i l m v found = elim (Bool-cases (ltb i m.arr_size)) [
  | inl low ↦ ground arith
  | inr high ↦ ground (arith, v.live i l)
]

update_twice : (f : ℕ → EvData) (a : ℕ) (d : EvData) → update (update f a blank) a d ≡ update f a d
update_twice f a d = fun_ext λ b. ground arith

-- What registering a descriptor leaves: its data, found at the pointer that `newOne` gave.
pub record Registered (i : ℕ) (d : EvData) (m : EvDataMap) (r : Loc × EvDataMap) : Type 0 where
  pub valid : IsValid r.1
  pub found : load i r.1 ≡ some r.0
  pub sized : r.1.arr_size ≡ m.arr_size
  pub entries : (j : ℕ) → entry j r.1 ≡ (if i == j then some (r.0, d) else entry j m)

-- `newOne`, the writes and `store` add the descriptor to the map and change no other.
pub register_lem :
    (i : ℕ) (d : EvData) (m : EvDataMap)
    → IsValid m
    → is_pos d.fd ≡ true
    → load i m ≡ none
    → Ends (Registered i d m) (register i d m)
unfolding register load
register_lem i d m v used free = elim (Bool-cases (ltb i m.arr_size)) [
  | inl low ↦
      let vacant : is_pos (m.arr i).fd ≡ false = ground arith in
      rw (low, vacant, low, register, new_one)
        (ends (record {
          valid = write-IsValid (slot i) d m v used;
          found = ground arith;
          sized = refl;
          entries = λ j. entry_low j low vacant;
        }))
  | inr high ↦
      let above : m.arr_size ≤ i = ground arith in
      Ends-of_eq (register_high high) (record {
        valid = allocated-IsValid i d m v used above;
        found = ground arith;
        sized = refl;
        entries = entry-allocated i d m v used above;
      })
]
  where
    entry_low :
        (j : ℕ)
        → ltb i m.arr_size ≡ true
        → is_pos (m.arr i).fd ≡ false
        → entry j (write (slot i) d m) ≡ (if i == j then some (slot i, d) else entry j m)
    entry_low j low vacant = elim (Option-cases (m.s_map j)) [
      | inl empty ↦ ground arith
      | inr (l, held) ↦ let (a, p, q) = v.owned j l held in ground arith
    ]

    register_high :
        ltb i m.arr_size ≡ false → register i d m ≡ ok (cell m.next, allocated i d m v used)
    register_high high =
        rw (high, register, new_one, high, store)
          (ap
            (λ c. ok (
              cell m.next,
              record m {
                cells = c;
                next = suc m.next;
                s_map = update m.s_map i (some (cell m.next));
              },
            ))
            (update_twice m.cells m.next d))

-- A descriptor of the array that is still registered makes `newOne` panic.
pub register_panics :
    (i : ℕ) (d : EvData) (m : EvDataMap) (l : Loc)
    → i < m.arr_size
    → load i m ≡ some l
    → register i d m ≡ panic
unfolding register load
register_panics i d m l low held = ground arith
