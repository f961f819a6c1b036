-- ===== src/Client/Responses.antt =====
-- client/control_client.py: what is read from a response of the server. The digits of the regular
-- expressions are the ASCII digits.
pub mod Address
pub mod Metadata
use hybrid_ftp_system.Prelude.{
  ℕ, zero, suc, ◌*◌, ◌+◌, ◌==◌, Bool, true, false, not, ◌&&◌, ◌||◌, ltb, List, [], ◌∷◌, ◌++◌, Bytes,
  length, take, drop, Option, none, some, same, if◌then◌else◌,
}
use hybrid_ftp_system.Prelude.Int.{ℤ, pos, negsuc}
use hybrid_ftp_system.Prelude.Text.{
  codes, is_empty, is_space, is_digit, run_of, to_nat, to_int, decimal,
}
use hybrid_ftp_system.Server.Paths.{starts_with}

-- `_get_response_code`: -1 where there is no number.
abbrev pub or_minus_one : Option ℤ → ℤ
or_minus_one none = negsuc 0
or_minus_one (some code) = code

unfoldable pub get_response_code : Bytes → ℤ
get_response_code response =
    if ltb (length response) 3 then negsuc 0 else or_minus_one (to_int (take 3 response))

abbrev pub cons_field : ℕ → Option (List ℕ) → Option (List ℕ)
cons_field n none = none
cons_field n (some ns) = some (n ∷ ns)

abbrev pub starts_at : ℕ → Bytes → Option Bytes
starts_at sep [] = none
starts_at sep (c ∷ cs) = if c == sep then some cs else none

-- `(\d+)` before each of the separators.
unfoldable pub read_fields : List ℕ → Bytes → Option (List ℕ)
read_fields [] text = some []
read_fields (sep ∷ seps) text =
    let (digits, behind) = run_of is_digit text in
    elim (to_nat digits) [
      | none ↦ none
      | some n ↦ elim (starts_at sep behind) [
        | none ↦ none
        | some rest ↦ cons_field n (read_fields seps rest)
      ]
    ]

abbrev pub separators : List ℕ
separators = b',' ∷ b',' ∷ b',' ∷ b',' ∷ b',' ∷ b')' ∷ []

abbrev pub or_later : Option (List ℕ) → Option (List ℕ) → Option (List ℕ)
or_later none later = later
or_later (some found) later = some found

-- `re.search(r"\((\d+),(\d+),(\d+),(\d+),(\d+),(\d+)\)", response)`, as the numbers of the groups.
unfoldable pub search_address : Bytes → Option (List ℕ)
search_address [] = none
search_address (c ∷ cs) =
    let later = search_address cs in
    if c == b'(' then or_later (read_fields separators cs) later else later

-- The address and the port that the numbers give.
abbrev pub address_of : List ℕ → Option (Bytes × ℕ)
address_of (a ∷ b ∷ c ∷ d ∷ high ∷ low ∷ []) =
    some (decimal a ++ b'.' ∷ decimal b ++ b'.' ∷ decimal c ++ b'.' ∷ decimal d, high * 256 + low)
address_of numbers = none

abbrev pub address_in : Option (List ℕ) → Option (Bytes × ℕ)
address_in none = none
address_in (some numbers) = address_of numbers

abbrev pub has_code : ℕ → ℤ → Bool
has_code n (pos m) = m == n
has_code n (negsuc m) = false

-- The tests of `_enter_passive` on a response, and the address that it gives.
unfoldable pub passive_address : Bytes → Option (Bytes × ℕ)
passive_address response =
    if has_code 227 (get_response_code response) then address_in (search_address response) else none

-- The keys of the metadata, in the order of the regular expression.
abbrev pub metadata_keys : List Bytes
metadata_keys = codes "TID" ∷ codes "SIZE" ∷ codes "SHA256" ∷ []

-- `(TID|SIZE|SHA256)=([^\s]+)` at the start of a text: key, value, and what is behind.
abbrev pub with_value : Bytes → Bytes × Bytes → Option (Bytes × Bytes × Bytes)
with_value key ([], behind) = none
with_value key (c ∷ value, behind) = some (key, c ∷ value, behind)

unfoldable pub match_pair : List Bytes → Bytes → Option (Bytes × Bytes × Bytes)
match_pair [] text = none
match_pair (key ∷ keys) text =
    let later = match_pair keys text in
    if starts_with text (key ++ b'=' ∷ [])
    then with_value key (run_of (λ c. not (is_space c)) (drop (suc (length key)) text))
    else later

-- `re.findall`, as the pairs from the last to the first, so that the later one of a key is found; a
-- round consumes a character at least.
unfoldable pub find_pairs : ℕ → Bytes → List (Bytes × Bytes) → List (Bytes × Bytes)
find_pairs zero text found = found
find_pairs (suc fuel) [] found = found
find_pairs (suc fuel) (c ∷ cs) found = elim (match_pair metadata_keys (c ∷ cs)) [
  | none ↦ find_pairs fuel cs found
  | some (key, value, behind) ↦ find_pairs fuel behind ((key, value) ∷ found)
]

abbrev pub value_at : Bytes → List (Bytes × Bytes) → Option Bytes
value_at key [] = none
value_at key ((k, v) ∷ pairs) = let more = value_at key pairs in if same k key then some v else more

abbrev pub int_at : Option Bytes → Option ℤ
int_at none = none
int_at (some text) = to_int text

abbrev pub three_values : Option ℤ → Option ℤ → Option Bytes → Option (ℤ × ℤ × Bytes)
three_values (some id) (some size) (some file_hash) = some (id, size, file_hash)
three_values id size file_hash = none

-- `_parse_transfer_metadata`
unfoldable pub parse_transfer_metadata : Bytes → Option (ℤ × ℤ × Bytes)
parse_transfer_metadata response =
    let values = find_pairs (length response) response [] in
    three_values (int_at (value_at (codes "TID") values)) (int_at (value_at (codes "SIZE") values))
      (value_at (codes "SHA256") values)
