-- ===== src/Protocol/Struct.antt =====
-- Python's `struct.Struct` for formats in network byte order: a format is the list of the fields'
-- widths in bytes, every field an unsigned number.
pub mod RoundTrip
use hybrid_ftp_system.Prelude.{
  ℕ, zero, suc, ◌+◌, ◌*◌, ◌/◌, ◌%◌, ◌^◌, ◌==◌, if◌then◌else◌, List, [], ◌∷◌, ◌++◌, Option, none,
  some, length, take, drop, Bytes, ltb,
}

-- `n` bytes, the highest first.
unfoldable pub to_bytes : ℕ → ℕ → Bytes
to_bytes zero v = []
to_bytes (suc n) v = to_bytes n (v / 256) ++ v % 256 ∷ []

unfoldable pub from_bytes : ℕ → Bytes → ℕ
from_bytes acc [] = acc
from_bytes acc (b ∷ bs) = from_bytes (acc * 256 + b) bs

abbrev pub size : List ℕ → ℕ
size [] = 0
size (w ∷ ws) = w + size ws

abbrev pub prepend : Bytes → Option Bytes → Option Bytes
prepend front none = none
prepend front (some back) = some (front ++ back)

-- `struct.error` is `none`: a number that its field does not hold, or a wrong count of values.
unfoldable pub pack : List ℕ → List ℕ → Option Bytes
unfolding to_bytes
pack [] [] = some []
pack [] (v ∷ vs) = none
pack (w ∷ ws) [] = none
pack (w ∷ ws) (v ∷ vs) = if ltb v (256 ^ w) then prepend (to_bytes w v) (pack ws vs) else none

abbrev pub fields : List ℕ → Bytes → List ℕ
fields [] bs = []
fields (w ∷ ws) bs = from_bytes 0 (take w bs) ∷ fields ws (drop w bs)

-- The buffer has to have the size of the format.
unfoldable pub unpack : List ℕ → Bytes → Option (List ℕ)
unfolding from_bytes
unpack ws bs = if length bs == size ws then some (fields ws bs) else none
