-- ===== src/Text/Ascii.antt =====
-- Bytes, literals, and the case mapping and trimming of `strings`.
use Prim.Native.Char.{code}
use smtpd.Prelude.{
  ℕ, ◌+◌, ◌-◌, Bool, true, false, ◌&&◌, ◌||◌, List, [], ◌∷◌, map, reverse, String, leb, ◌==◌,
  if◌then◌else◌,
}

abbrev pub Bytes : Type 0
Bytes = List ℕ

-- the bytes of an ASCII literal
unfoldable pub codes : String → Bytes
codes String.[] = []
codes (String.◌∷◌ c s) = code c ∷ codes s

unfoldable pub upper_byte : ℕ → ℕ
upper_byte c = if leb b'a' c && leb c b'z' then c - 32 else c

unfoldable pub lower_byte : ℕ → ℕ
lower_byte c = if leb b'A' c && leb c b'Z' then c + 32 else c

-- strings.ToUpper, strings.ToLower
unfoldable pub to_upper : Bytes → Bytes
unfolding upper_byte
to_upper = map upper_byte

unfoldable pub to_lower : Bytes → Bytes
unfolding lower_byte
to_lower = map lower_byte

-- a == b on strings, bytes.Equal
unfoldable pub bytes_eq : Bytes → Bytes → Bool
bytes_eq [] [] = true
bytes_eq [] (y ∷ ys) = false
bytes_eq (x ∷ xs) [] = false
bytes_eq (x ∷ xs) (y ∷ ys) = x == y && bytes_eq xs ys

-- strings.EqualFold
unfoldable pub equal_fold : Bytes → Bytes → Bool
unfolding to_lower bytes_eq
equal_fold a b = bytes_eq (to_lower a) (to_lower b)

unfoldable pub is_space : ℕ → Bool
is_space c = c == 32 || (leb 9 c && leb c 13)

unfoldable pub drop_while : (ℕ → Bool) → Bytes → Bytes
drop_while p [] = []
drop_while p (c ∷ s) = let rest = drop_while p s in if p c then rest else c ∷ s

-- strings.Trim and strings.TrimSpace: both ends
unfoldable pub trim_by : (ℕ → Bool) → Bytes → Bytes
unfolding drop_while
trim_by p s = reverse (drop_while p (reverse (drop_while p s)))

unfoldable pub trim_space : Bytes → Bytes
unfolding trim_by is_space
trim_space = trim_by is_space

unfoldable pub is_angle : ℕ → Bool
is_angle c = c == b'<' || c == b'>'

-- strings.Trim(s, "<>")
unfoldable pub trim_angles : Bytes → Bytes
unfolding trim_by is_angle
trim_angles = trim_by is_angle
