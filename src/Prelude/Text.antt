-- ===== src/Prelude/Text.antt =====
-- Texts as code points, with the methods of Python's `str` that the sources use. `upper` and `lower`
-- change the ASCII letters; digits are the ASCII digits.
use Prim.Native.Char.{code}
use Prim.Native.Nat.{ℕ, zero, suc, ◌+◌, ◌-◌, ◌*◌, ◌/◌, ◌%◌}
use Prim.Native.String.{String}
use mathlib.Core.Bool.{Bool, true, false, ◌&&◌, ◌||◌}
use mathlib.Core.List.{List, [], ◌∷◌, ◌++◌, map}
use mathlib.Core.Option.{Option, none, some}
use hybrid_ftp_system.Prelude.Tests.{ltb, leb, ◌==◌, if◌then◌else◌}
use hybrid_ftp_system.Prelude.Lists.{Bytes}
use hybrid_ftp_system.Prelude.Int.{ℤ, pos, negsuc}

-- The code points of a literal.
unfoldable pub codes : String → Bytes
codes String.[] = []
codes (String.◌∷◌ c s) = code c ∷ codes s

abbrev pub is_empty : Bytes → Bool
is_empty [] = true
is_empty (c ∷ cs) = false

-- The white space of `str.split` and `str.strip`.
unfoldable pub is_space : ℕ → Bool
is_space c =
    (leb 9 c && leb c 13)
    || (leb 28 c && leb c 32)
    || (c == 0x85)
    || (c == 0xA0)
    || (c == 0x1680)
    || (leb 0x2000 c && leb c 0x200A)
    || (c == 0x2028)
    || (c == 0x2029)
    || (c == 0x202F)
    || (c == 0x205F)
    || (c == 0x3000)

unfoldable pub to_upper : ℕ → ℕ
to_upper c = if leb b'a' c && leb c b'z' then c - 32 else c

unfoldable pub upper : Bytes → Bytes
upper = map to_upper

unfoldable pub to_lower : ℕ → ℕ
to_lower c = if leb b'A' c && leb c b'Z' then c + 32 else c

unfoldable pub lower : Bytes → Bytes
lower = map to_lower

unfoldable pub lstrip : Bytes → Bytes
lstrip [] = []
lstrip (c ∷ cs) = let rest = lstrip cs in if is_space c then rest else c ∷ cs

unfoldable pub rstrip : Bytes → Bytes
rstrip [] = []
rstrip (c ∷ cs) = let rest = rstrip cs in if is_space c && is_empty rest then [] else c ∷ rest

unfoldable pub strip : Bytes → Bytes
strip s = rstrip (lstrip s)

-- `text.split(sep, 1)`, as the part before the first separator and what is behind it, if there is one.
unfoldable pub split_once : ℕ → Bytes → Bytes × Option Bytes
split_once sep [] = ([], none)
split_once sep (c ∷ cs) =
    let (front, back) = split_once sep cs in if c == sep then ([], some cs) else (c ∷ front, back)

-- `text.split(sep)`
abbrev pub onto_first : ℕ → List Bytes → List Bytes
onto_first c [] = (c ∷ []) ∷ []
onto_first c (p ∷ ps) = (c ∷ p) ∷ ps

unfoldable pub split_on : ℕ → Bytes → List Bytes
split_on sep [] = [] ∷ []
split_on sep (c ∷ cs) =
    let parts = split_on sep cs in if c == sep then [] ∷ parts else onto_first c parts

abbrev pub add_word : Bytes → List Bytes → List Bytes
add_word [] words = words
add_word (c ∷ cs) words = (c ∷ cs) ∷ words

-- `text.split()`: the word that is being read, and the words behind it.
unfoldable pub words_from : Bytes → Bytes × List Bytes
words_from [] = ([], [])
words_from (c ∷ cs) =
    let (word, words) = words_from cs in
    if is_space c then ([], add_word word words) else (c ∷ word, words)

unfoldable pub split_words : Bytes → List Bytes
split_words s = let (word, words) = words_from s in add_word word words

-- `sep.join(parts)`
unfoldable pub join_with : Bytes → List Bytes → Bytes
join_with sep [] = []
join_with sep (p ∷ []) = p
join_with sep (p ∷ q ∷ ps) = p ++ sep ++ join_with sep (q ∷ ps)

unfoldable pub contains : ℕ → Bytes → Bool
contains sep [] = false
contains sep (c ∷ cs) = (c == sep) || contains sep cs

-- The digits of a number, the last one first; `n + 1` rounds are enough for `n`.
unfoldable pub digits_within : ℕ → ℕ → Bytes → Bytes
digits_within zero n out = out
digits_within (suc fuel) n out = elim (n / 10 == 0) [
  | true ↦ (b'0' + n % 10) ∷ out
  | false ↦ digits_within fuel (n / 10) ((b'0' + n % 10) ∷ out)
]

-- `str(n)`
unfoldable pub decimal : ℕ → Bytes
decimal n = digits_within (suc n) n []

unfoldable pub is_digit : ℕ → Bool
is_digit c = leb b'0' c && leb c b'9'

-- The longest run of such characters at the start, and what is behind it.
unfoldable pub run_of : (ℕ → Bool) → Bytes → Bytes × Bytes
run_of test [] = ([], [])
run_of test (c ∷ cs) =
    let (front, back) = run_of test cs in if test c then (c ∷ front, back) else ([], c ∷ cs)

-- One digit or more behind the number `n`; an underscore may stand between two of them.
unfoldable pub read_digits : ℕ → Bytes → Option ℕ
read_digits n [] = none
read_digits n (c ∷ []) = if is_digit c then some (n * 10 + (c - b'0')) else none
read_digits n (c ∷ d ∷ cs) = elim (is_digit c) [
  | false ↦ none
  | true ↦ elim (d == b'_') [
    | true ↦ read_digits (n * 10 + (c - b'0')) cs
    | false ↦ read_digits (n * 10 + (c - b'0')) (d ∷ cs)
  ]
]

abbrev pub negative : ℕ → ℤ
negative zero = pos zero
negative (suc n) = negsuc n

abbrev pub map_int : (ℕ → ℤ) → Option ℕ → Option ℤ
map_int f none = none
map_int f (some n) = some (f n)

abbrev pub signed : Bytes → Option ℤ
signed [] = none
signed (c ∷ cs) =
    if c == b'-'
    then map_int negative (read_digits 0 cs)
    else if c == b'+'
    then map_int pos (read_digits 0 cs)
    else map_int pos (read_digits 0 (c ∷ cs))

-- `int(text)`; `none` is `ValueError`.
unfoldable pub to_int : Bytes → Option ℤ
to_int s = signed (strip s)

-- `int(text)` of digits alone, as a regular expression `\d+` leaves them.
unfoldable pub to_nat : Bytes → Option ℕ
to_nat s = read_digits 0 s

-- `str(z)`
abbrev pub decimal_int : ℤ → Bytes
decimal_int (pos n) = decimal n
decimal_int (negsuc n) = b'-' ∷ decimal (suc n)

-- The UTF-8 encoding of a code point; a surrogate has none.
unfoldable pub encode_char : ℕ → Option Bytes
encode_char c =
    if ltb c 0x80
    then some (c ∷ [])
    else if ltb c 0x800
    then some ((0xC0 + c / 64) ∷ (0x80 + c % 64) ∷ [])
    else if leb 0xD800 c && leb c 0xDFFF
    then none
    else if ltb c 0x10000
    then some ((0xE0 + c / 4096) ∷ (0x80 + c / 64 % 64) ∷ (0x80 + c % 64) ∷ [])
    else some
        ((0xF0 + c / 262144) ∷ (0x80 + c / 4096 % 64) ∷ (0x80 + c / 64 % 64) ∷ (0x80 + c % 64) ∷ [])

abbrev pub both : Option Bytes → Option Bytes → Option Bytes
both none more = none
both (some a) none = none
both (some a) (some b) = some (a ++ b)

-- `text.encode("utf-8")`; `none` is `UnicodeEncodeError`.
unfoldable pub encode_utf8 : Bytes → Option Bytes
encode_utf8 [] = some []
encode_utf8 (c ∷ cs) = both (encode_char c) (encode_utf8 cs)
