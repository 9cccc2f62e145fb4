-- ===== src/Http/Text.antt =====
-- The functions of Go's strings and bytes packages that the examples use, on bytes in UTF-8.
use goev.Prelude.{
  ℕ, zero, suc, Bool, true, false, ◌&&◌, ◌||◌, Option, none, some, List, [], ◌∷◌, leb, ◌==◌,
  if◌then◌else◌, drop, ◌+◌,
}
use goev.Address.{bytes_equal}

-- bytes.Index of CRLF
abbrev pub index_crlf : List ℕ → Option ℕ
index_crlf [] = none
index_crlf (c ∷ []) = none
index_crlf (c ∷ d ∷ cs) =
    let rest : Option ℕ = elim (index_crlf (d ∷ cs)) [ none ↦ none | some i ↦ some (suc i) ] in
    if (c == 13) && (d == 10) then some 0 else rest

-- unicode.IsSpace, by the bytes of a rune: the white space of ASCII; U+0085 and U+00A0; and U+1680,
-- U+2000 to U+200A, U+2028, U+2029, U+202F, U+205F and U+3000.
abbrev pub is_space : ℕ → Bool
is_space c = (leb 9 c && leb c 13) || (c == 32)

abbrev pub is_space_2 : ℕ → ℕ → Bool
is_space_2 c d = (c == 194) && ((d == 133) || (d == 160))

abbrev pub is_space_3 : ℕ → ℕ → ℕ → Bool
is_space_3 c d e =
    ((c == 225) && (d == 154) && (e == 128))
    || ((c == 226)
        && (d == 128)
        && ((leb 128 e && leb e 138) || (e == 168) || (e == 169) || (e == 175)))
    || ((c == 226) && (d == 129) && (e == 159))
    || ((c == 227) && (d == 128) && (e == 128))

-- The bytes of the space at the front, and of the one at the end of a text that is given from its end.
abbrev pub space_width : List ℕ → ℕ
space_width [] = 0
space_width (c ∷ []) = if is_space c then 1 else 0
space_width (c ∷ d ∷ []) = if is_space c then 1 else if is_space_2 c d then 2 else 0
space_width (c ∷ d ∷ e ∷ _) =
    if is_space c then 1 else if is_space_2 c d then 2 else if is_space_3 c d e then 3 else 0

abbrev pub width_back : List ℕ → ℕ
width_back [] = 0
width_back (c ∷ []) = if is_space c then 1 else 0
width_back (d ∷ c ∷ []) = if is_space d then 1 else if is_space_2 c d then 2 else 0
width_back (e ∷ d ∷ c ∷ _) =
    if is_space e then 1 else if is_space_2 d e then 2 else if is_space_3 c d e then 3 else 0

-- The text without the spaces at its front, after so many bytes of the one before.
abbrev pub trim_front : (List ℕ → ℕ) → ℕ → List ℕ → List ℕ
trim_front width skip [] = []
trim_front width (suc skip) (c ∷ cs) = trim_front width skip cs
trim_front width zero (c ∷ cs) = elim (width (c ∷ cs)) [
  | zero ↦ c ∷ cs
  | suc more ↦ trim_front width more cs
]

abbrev pub reversed : List ℕ → List ℕ → List ℕ
reversed [] acc = acc
reversed (c ∷ cs) acc = reversed cs (c ∷ acc)

-- strings.TrimSpace
unfoldable pub trim_space : List ℕ → List ℕ
trim_space s = reversed (trim_front width_back 0 (reversed (trim_front space_width 0 s) [])) []

abbrev pub to_lower : ℕ → ℕ
to_lower c = if leb 65 c && leb c 90 then c + 32 else c

abbrev pub starts_with : List ℕ → List ℕ → Bool
starts_with [] s = true
starts_with (x ∷ xs) [] = false
starts_with (x ∷ xs) (c ∷ s) = (x == c) && starts_with xs s

-- The lower case of a text, where the runes beyond ASCII that fold to an ASCII letter become it: U+017F is
-- the bytes 197 and 191 and folds to s, and U+212A the bytes 226, 132 and 170 and folds to k.
abbrev pub folded : List ℕ → List ℕ
folded [] = []
folded (c ∷ cs) =
    let rest = folded cs in
    if (c == 197) && starts_with (191 ∷ []) cs
    then 115 ∷ drop 1 rest
    else if (c == 226) && starts_with (132 ∷ 170 ∷ []) cs
    then 107 ∷ drop 2 rest
    else to_lower c ∷ rest

-- strings.EqualFold, where the second text is ASCII, as it is at all calls.
unfoldable pub equal_fold : List ℕ → List ℕ → Bool
equal_fold s name = bytes_equal (folded s) (folded name)
