-- ===== src/Server/Metadata.antt =====
-- server/tcp_server.py: the arguments of the uploads and of PORT.
pub mod Bounds
use hybrid_ftp_system.Prelude.{
  ℕ, suc, ◌==◌, Bool, true, false, not, ◌&&◌, ◌||◌, ltb, leb, List, [], ◌∷◌, ◌++◌, map, length,
  Bytes, same, Option, none, some, Result, ok, err, if◌then◌else◌,
}
use hybrid_ftp_system.Prelude.Int.{ℤ, pos, negsuc, ◌+ℤ◌, scale}
use hybrid_ftp_system.Prelude.Text.{
  codes, is_empty, upper, lower, strip, split_on, split_once, split_words, join_with, contains,
  decimal, to_int,
}

-- A word `key=value`, with its key in capitals.
abbrev pub key_value : Bytes × Option Bytes → Bytes × Bytes
key_value (key, none) = (upper key, [])
key_value (key, some value) = (upper key, value)

abbrev pub no_words : List Bytes → Bool
no_words [] = true
no_words (w ∷ ws) = false

-- `while parts and "=" in parts[-1]`: what is left of the words, and the pairs, the last one taken
-- first.
unfoldable pub pop_pairs : List Bytes → List Bytes × List (Bytes × Bytes)
pop_pairs [] = ([], [])
pop_pairs (w ∷ ws) =
    let (names, pairs) = pop_pairs ws in
    if no_words names && contains b'=' w
    then ([], key_value (split_once b'=' w) ∷ pairs)
    else (w ∷ names, pairs)

abbrev pub value_of : Bytes → List (Bytes × Bytes) → Option Bytes
value_of key [] = none
value_of key ((k, v) ∷ pairs) = let more = value_of key pairs in if same k key then some v else more

abbrev pub size_and_hash : Bytes → Option ℤ → Option Bytes → Option (Bytes × ℕ × Bytes)
size_and_hash name (some (pos size)) (some value) =
    if length (lower value) == 64 then some (name, size, lower value) else none
size_and_hash name (some (pos size)) none = none
size_and_hash name (some (negsuc n)) value = none
size_and_hash name none value = none

abbrev pub int_of : Option Bytes → Option ℤ
int_of none = none
int_of (some text) = to_int text

-- `parse_upload_metadata`
unfoldable pub parse_upload_metadata : Bytes → Option (Bytes × ℕ × Bytes)
parse_upload_metadata arg =
    let parts = split_words arg in
    let (names, pairs) = pop_pairs parts in
    if ltb (length parts) 2
    then none
    else size_and_hash (join_with (codes " ") names) (int_of (value_of (codes "SIZE") pairs))
        (value_of (codes "SHA256") pairs)

pub data PortError : Type 0 where
  bad_syntax bad_host bad_port : PortError

abbrev pub occurrences : ℕ → Bytes → ℕ
occurrences sep [] = 0
occurrences sep (c ∷ cs) = let rest = occurrences sep cs in if c == sep then suc rest else rest

-- `0 <= h <= 255`
abbrev pub octet : ℤ → Option ℕ
octet (pos n) = if leb n 255 then some n else none
octet (negsuc n) = none

abbrev pub host_of : Option ℕ → Option ℕ → Option ℕ → Option ℕ → Option Bytes
host_of (some a) (some b) (some c) (some d) =
    some (decimal a ++ b'.' ∷ decimal b ++ b'.' ∷ decimal c ++ b'.' ∷ decimal d)
host_of a b c d = none

abbrev pub user_port : ℤ → Option ℕ
user_port (pos port) = if ltb port 1024 || ltb 65535 port then none else some port
user_port (negsuc n) = none

abbrev pub host_and_port : Option Bytes → Option ℕ → Result PortError (Bytes × ℕ)
host_and_port none port = err bad_host
host_and_port (some ip) none = err bad_port
host_and_port (some ip) (some port) = ok (ip, port)

-- `h1, h2, h3, h4, p1, p2 = map(int, parts)`, and the tests of the numbers.
abbrev pub six_numbers : List (Option ℤ) → Result PortError (Bytes × ℕ)
six_numbers (some h1 ∷ some h2 ∷ some h3 ∷ some h4 ∷ some p1 ∷ some p2 ∷ []) =
    host_and_port (host_of (octet h1) (octet h2) (octet h3) (octet h4))
      (user_port (scale 256 p1 +ℤ p2))
six_numbers parts = err bad_syntax

-- The argument of PORT.
unfoldable pub parse_port_argument : Bytes → Result PortError (Bytes × ℕ)
parse_port_argument arg =
    if is_empty arg || not (occurrences b',' arg == 5)
    then err bad_syntax
    else six_numbers (map (λ part. to_int (strip part)) (split_on b',' arg))
