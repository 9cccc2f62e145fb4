-- ===== src/IoHandle/Pending.antt =====
-- The bytes that wait in the queue of a handle, and its buffers.
use goev.Prelude.{
  ℕ, zero, suc, ◌+◌, ◌-◌, ◌*◌, ◌≤◌, ◌<◌, ◌≡◌, ◌⊎◌, refl, sym, ap, ◌∙◌, arith, List, [], ◌∷◌, ◌++◌,
  length, take, drop, take-append-drop, length-drop, Ends, ends, Ends-test, Ends-bind, Ends-weaken,
}
use goev.BufPool.{Slice, Pools}
use goev.BufPool.Alloc as Alloc
use goev.BufPool.Free.{bfree_lem}
use goev.IoHandle.{AsyncWriteBuf, Env, Io, part, io_free_buff, free_buf}

-- A slice that BFree takes.
abbrev pub IsFreeable : Slice → Type 0
IsFreeable b = (b.len ≤ b.cap) × (0 < b.cap) × ((b.cap ≤ 1024 * 1023) ⊎ (1024 * 1024 < b.cap))

-- A buffer of which some bytes are left to write, and which can be freed.
pub record IsPending (b : AsyncWriteBuf) : Type 0 where
  pub filled : length b.bytes ≡ b.len
  pub some_left : b.writen < b.len
  pub freeable : IsFreeable b.slice

abbrev pub ArePending : List AsyncWriteBuf → Type 0
ArePending [] = zero ≡ zero
ArePending (b ∷ bs) = IsPending b × ArePending bs

-- The bytes of the buffers that are not written yet, in order.
abbrev pub unsent : List AsyncWriteBuf → List ℕ
unsent [] = []
unsent (b ∷ bs) = part b ++ unsent bs

pub take_enough : (n : ℕ) (xs : List ℕ) → length xs ≤ n → take n xs ≡ xs
take_enough zero [] h = refl
take_enough zero (x ∷ xs) h = absurd (omega arith)
take_enough (suc n) [] h = refl
take_enough (suc n) (x ∷ xs) h = ap (λ ys. x ∷ ys) (take_enough n xs (omega arith))

drop-nil : (n : ℕ) → drop {A = ℕ} n [] ≡ []
drop-nil zero = refl
drop-nil (suc n) = refl

later : (k n x : ℕ) (xs : List ℕ) → drop (n + k) xs ≡ drop (suc n + k) (x ∷ xs)
later k n x xs = let e : suc (n + k) ≡ suc n + k = omega arith in ap (λ m. drop m (x ∷ xs)) e

drop-drop : (k n : ℕ) (xs : List ℕ) → drop k (drop n xs) ≡ drop (n + k) xs
drop-drop k zero xs = ap (λ m. drop m xs) (omega arith)
drop-drop k (suc n) [] = drop-nil k ∙ sym (drop-nil (suc n + k))
drop-drop k (suc n) (x ∷ xs) = drop-drop k n xs ∙ later k n x xs

pub part_whole : (b : AsyncWriteBuf) → length b.bytes ≡ b.len → part b ≡ drop b.writen b.bytes
part_whole b e =
    take_enough (b.len - b.writen) (drop b.writen b.bytes)
      (omega (arith, length-drop b.writen b.bytes, e))

pub length-part : (b : AsyncWriteBuf) → length b.bytes ≡ b.len → length (part b) ≡ b.len - b.writen
length-part b e = ap length (part_whole b e) ∙ omega (arith, length-drop b.writen b.bytes, e)

-- After `k` more bytes are written.
abbrev pub advanced : ℕ → AsyncWriteBuf → AsyncWriteBuf
advanced k b = record b { writen = b.writen + k }

pub part-advanced :
    (k : ℕ) (b : AsyncWriteBuf)
    → length b.bytes ≡ b.len
    → take k (part b) ++ part (advanced k b) ≡ part b
part-advanced k b e =
    ap (λ xs. take k (part b) ++ xs)
      (part_whole (advanced k b) e
        ∙ sym (drop-drop k b.writen b.bytes)
        ∙ ap (drop k) (sym (part_whole b e)))
    ∙ take-append-drop k (part b)

pub part_all :
    (k : ℕ) (b : AsyncWriteBuf)
    → length b.bytes ≡ b.len
    → k ≡ b.len - b.writen
    → take k (part b) ≡ part b
part_all k b e f = take_enough k (part b) (omega (arith, length-part b e))

-- Freeing a freeable slice returns, and keeps the pools valid.
pub io_free_buff_lem :
    (env : Env) (b : Slice) (p : Pools)
    → Alloc.IsValid p
    → IsFreeable b
    → Ends Alloc.IsValid (io_free_buff env b p)
unfolding io_free_buff
io_free_buff_lem env b p v f =
    Ends-test env.io_buff_use_pool (λ pooled. Ends-weaken (bfree_lem b p v f.0 f.1 f.2) λ q r. r.0)
      (λ plain. ends v)

pub free_buf_lem :
    (env : Env) (b : AsyncWriteBuf) (h : Io)
    → Alloc.IsValid h.pools
    → IsFreeable b.slice
    → Ends (λ h'. (h' ≡ record h { pools = h'.pools }) × Alloc.IsValid h'.pools) (free_buf env b h)
unfolding free_buf
free_buf_lem env b h v f =
    Ends-bind (io_free_buff_lem env b.slice h.pools v f) λ p w. ends (refl, w)

pub free_buf_then {κ} :
    {Q : Io → Type κ} (env : Env) (b : AsyncWriteBuf) (h : Io)
    → Alloc.IsValid h.pools
    → IsFreeable b.slice
    → ((p : Pools) → Alloc.IsValid p → Q (record h { pools = p }))
    → Ends Q (free_buf env b h)
unfolding free_buf
free_buf_then env b h v f next =
    Ends-bind (io_free_buff_lem env b.slice h.pools v f) λ p w. ends (next p w)
