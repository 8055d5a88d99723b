-- ===== src/Text/Split.antt =====
-- Cutting a string at separators.
use smtpd.Prelude.{ℕ, zero, suc, Bool, true, false, List, [], ◌∷◌, ◌++◌, ◌==◌, if◌then◌else◌}
use smtpd.Text.Ascii.{Bytes, is_space}

-- puts a byte before the first piece
abbrev pub onto_head : ℕ → List Bytes → List Bytes
onto_head c [] = (c ∷ []) ∷ []
onto_head c (w ∷ ws) = (c ∷ w) ∷ ws

-- strings.Split(s, sep) for a separator of one byte
unfoldable pub split : ℕ → Bytes → List Bytes
split b [] = [] ∷ []
split b (c ∷ s) = let rest = split b s in if c == b then [] ∷ rest else onto_head c rest

-- strings.SplitN(s, sep, n): at most n pieces, the last one unsplit
unfoldable pub split_n : ℕ → ℕ → Bytes → List Bytes
split_n b zero s = []
split_n b (suc zero) s = s ∷ []
split_n b (suc (suc n)) [] = [] ∷ []
split_n b (suc (suc n)) (c ∷ s) = elim (c == b) [
  | true ↦ [] ∷ split_n b (suc n) s
  | false ↦ onto_head c (split_n b (suc (suc n)) s)
]

-- strings.Cut(s, sep) for a separator of one byte: before, after, found
unfoldable pub cut : ℕ → Bytes → Bytes × Bytes × Bool
cut b [] = ([], [], false)
cut b (c ∷ s) =
    let (before, after, found) = cut b s in
    if c == b then ([], s, true) else (c ∷ before, after, found)

abbrev pub push_word : Bytes → List Bytes → List Bytes
push_word [] ws = ws
push_word (c ∷ w) ws = (c ∷ w) ∷ ws

-- the first word so far, and the words after it
unfoldable pub fields_from : Bytes → Bytes × List Bytes
unfolding is_space
fields_from [] = ([], [])
fields_from (c ∷ s) =
    let (w, ws) = fields_from s in if is_space c then ([], push_word w ws) else (c ∷ w, ws)

-- strings.Fields
unfoldable pub fields : Bytes → List Bytes
unfolding fields_from
fields s = let (w, ws) = fields_from s in push_word w ws

-- strings.Join(ws, " ")
unfoldable pub join_space : List Bytes → Bytes
join_space [] = []
join_space (w ∷ []) = w
join_space (w ∷ v ∷ ws) = w ++ 32 ∷ join_space (v ∷ ws)
