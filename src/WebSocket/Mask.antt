-- ===== src/WebSocket/Mask.antt =====
-- maskBytes is the bytewise mask of RFC 6455.
use goev.Prelude.{
  ℕ, zero, suc, ◌+◌, ◌*◌, ◌/◌, ◌%◌, ◌≤◌, ◌≡◌, refl, sym, ap, ap₂, ◌∙◌, arith, List, [], ◌∷◌, ◌++◌,
  length, take, drop, get_or, append_assoc, append-nil, take-append-drop, length-take, length-drop,
}
use Prim.Native.Nat.{bit_xor}
use goev.WebSocket.{xor_bytes, mask_from, mask_words, mask_blocks, mask_bytes}

-- The mask depends on the index modulo 4 only.
mask_from_periodic :
    (key : List ℕ) (i k : ℕ) (b : List ℕ) → mask_from key (i + 4 * k) b ≡ mask_from key i b
mask_from_periodic key i k [] = refl
mask_from_periodic key i k (x ∷ b) =
    let same : (i + 4 * k) % 4 ≡ i % 4 = omega arith in
    let next : suc (i + 4 * k) ≡ suc i + 4 * k = omega arith in
    ap₂ (λ j ys. bit_xor x (get_or key j 0) ∷ ys) same
      (ap (λ j. mask_from key j b) next ∙ mask_from_periodic key (suc i) k b)

mask_from-append :
    (key : List ℕ) (i : ℕ) (b c : List ℕ)
    → mask_from key i (b ++ c) ≡ mask_from key i b ++ mask_from key (i + length b) c
mask_from-append key i [] c = let here : i ≡ i + 0 = omega arith in ap (λ j. mask_from key j c) here
mask_from-append key i (x ∷ b) c =
    let next : suc i + length b ≡ i + suc (length b) = omega arith in
    ap (λ ys. bit_xor x (get_or key (i % 4) 0) ∷ ys)
      (mask_from-append key (suc i) b c
        ∙ ap (λ j. mask_from key (suc i) b ++ mask_from key j c) next)

drop-nil : (k : ℕ) → drop {A = ℕ} k [] ≡ []
drop-nil zero = refl
drop-nil (suc k) = refl

drop-drop : (m n : ℕ) (b : List ℕ) → drop (m + n) b ≡ drop n (drop m b)
drop-drop zero n b = let same : 0 + n ≡ n = omega arith in ap (λ k. drop k b) same
drop-drop (suc m) n [] =
    let next : suc m + n ≡ suc (m + n) = omega arith in ap (λ k. drop k []) next ∙ sym (drop-nil n)
drop-drop (suc m) n (x ∷ b) =
    let next : suc m + n ≡ suc (m + n) = omega arith in
    ap (λ k. drop k (x ∷ b)) next ∙ drop-drop m n b

module _ (k0 k1 k2 k3 : ℕ) where
  abbrev key : List ℕ
  key = k0 ∷ k1 ∷ k2 ∷ k3 ∷ []

  -- Up to eight bytes, with the key twice.
  word : (w : List ℕ) → length w ≤ 8 → xor_bytes w (key ++ key) ≡ mask_from key 0 w
  word (x0 ∷ x1 ∷ x2 ∷ x3 ∷ x4 ∷ x5 ∷ x6 ∷ x7 ∷ x8 ∷ w) l = absurd (omega arith)
  word w l = refl

  -- After a multiple of four bytes the mask begins anew.
  anew :
      (n : ℕ) (b : List ℕ)
      → 4 * n ≤ length b
      → mask_from key 0 (take (4 * n) b) ++ mask_from key 0 (drop (4 * n) b) ≡ mask_from key 0 b
  anew n b l =
      let start : 0 + length (take (4 * n) b) ≡ 0 + 4 * n = omega (arith, length-take (4 * n) b) in
      ap (λ ys. mask_from key 0 (take (4 * n) b) ++ ys)
        (sym (
          ap (λ j. mask_from key j (drop (4 * n) b)) start
          ∙ mask_from_periodic key 0 n (drop (4 * n) b)))
      ∙ sym (mask_from-append key 0 (take (4 * n) b) (drop (4 * n) b))
      ∙ ap (mask_from key 0) (take-append-drop (4 * n) b)

  mask_words_lem :
      (n : ℕ) (b : List ℕ)
      → 8 * n ≤ length b
      → mask_words (key ++ key) n b ++ mask_from key 0 (drop (8 * n) b) ≡ mask_from key 0 b
  unfolding mask_words
  mask_words_lem zero b l = refl
  mask_words_lem (suc n) b l =
      let one : 8 * suc n ≡ 8 + 8 * n = omega arith in
      append_assoc (xor_bytes (take 8 b) (key ++ key)) _ _
      ∙ ap₂ (λ xs ys. xs ++ ys) (word (take 8 b) (omega (arith, length-take 8 b)))
          (ap (λ j. mask_words (key ++ key) n (drop 8 b) ++ mask_from key 0 j)
              (ap (λ k. drop k b) one ∙ drop-drop 8 (8 * n) b)
            ∙ mask_words_lem n (drop 8 b) (omega (arith, length-drop 8 b)))
      ∙ anew 2 b (omega arith)

  mask_blocks_lem :
      (n : ℕ) (b : List ℕ)
      → 64 * n ≤ length b
      → mask_blocks (key ++ key) n b ++ mask_from key 0 (drop (64 * n) b) ≡ mask_from key 0 b
  unfolding mask_blocks
  mask_blocks_lem zero b l = refl
  mask_blocks_lem (suc n) b l =
      let one : 64 * suc n ≡ 64 + 64 * n = omega arith in
      let full : length (take 64 b) ≡ 64 = omega (arith, length-take 64 b) in
      append_assoc (mask_words (key ++ key) 8 (take 64 b)) _ _
      ∙ ap₂ (λ xs ys. xs ++ ys) (whole (take 64 b) full)
          (ap (λ j. mask_blocks (key ++ key) n (drop 64 b) ++ mask_from key 0 j)
              (ap (λ k. drop k b) one ∙ drop-drop 64 (64 * n) b)
            ∙ mask_blocks_lem n (drop 64 b) (omega (arith, length-drop 64 b)))
      ∙ anew 16 b (omega arith)
    where
      nothing : (xs : List ℕ) → length xs ≡ 0 → mask_from key 0 xs ≡ []
      nothing [] e = refl
      nothing (x ∷ xs) e = absurd (omega (arith, e))

      whole : (w : List ℕ) → length w ≡ 64 → mask_words (key ++ key) 8 w ≡ mask_from key 0 w
      whole w e =
          sym (append-nil (mask_words (key ++ key) 8 w))
          ∙ ap (λ ys. mask_words (key ++ key) 8 w ++ ys)
              (sym (nothing (drop 64 w) (omega (arith, e, length-drop 64 w))))
          ∙ mask_words_lem 8 w (omega (arith, e))

  -- maskBytes, by blocks of 64 and 8 bytes and then byte by byte, combines each byte with the byte of the
  -- key at its index modulo 4.
  pub mask_bytes_lem : (b : List ℕ) → mask_bytes b key ≡ mask_from key 0 b
  unfolding mask_bytes
  mask_bytes_lem b =
      let blocks = length b / 64 in
      let b' = drop (64 * blocks) b in
      ap (λ ys. mask_blocks (key ++ key) blocks b ++ ys)
        (mask_words_lem (length b' / 8) b' (omega arith))
      ∙ mask_blocks_lem blocks b (omega arith)
