-- ===== src/Protocol/Struct/RoundTrip.antt =====
-- Packing and unpacking are inverse to each other.
use hybrid_ftp_system.Prelude.{
  ℕ, zero, suc, ◌+◌, ◌*◌, ◌/◌, ◌%◌, ◌^◌, ◌<◌, ◌≡◌, refl, ◌∙◌, arith, List, [], ◌∷◌, ◌++◌, Option,
  none, some, length, length-append, take, drop, take-append, drop-append, take-append-drop,
  length-take, length-drop, All-append, All-take, All-drop, append-nil, append_assoc, Bytes, IsByte,
  IsBytes,
}
use native.Mathlib.Nat.{pow-suc}
use hybrid_ftp_system.Protocol.Struct.{to_bytes, from_bytes, size, prepend, pack, fields, unpack}

pub length-to_bytes : (n v : ℕ) → length (to_bytes n v) ≡ n
unfolding to_bytes
length-to_bytes zero v = refl
length-to_bytes (suc n) v =
    omega (arith, length-append (to_bytes n (v / 256)) (v % 256 ∷ []), length-to_bytes n (v / 256))

pub to_bytes-IsBytes : (n v : ℕ) → IsBytes (to_bytes n v)
unfolding to_bytes
to_bytes-IsBytes zero v = tt
to_bytes-IsBytes (suc n) v =
    All-append IsByte (to_bytes n (v / 256)) (v % 256 ∷ []) (to_bytes-IsBytes n (v / 256))
      (omega arith)

from_bytes-append :
    (xs ys : Bytes) (acc : ℕ) → from_bytes acc (xs ++ ys) ≡ from_bytes (from_bytes acc xs) ys
unfolding from_bytes
from_bytes-append [] ys acc = refl
from_bytes-append (x ∷ xs) ys acc = from_bytes-append xs ys (acc * 256 + x)

pub from-to_bytes : (n v : ℕ) → v < 256 ^ n → from_bytes 0 (to_bytes n v) ≡ v
unfolding from_bytes to_bytes
from-to_bytes zero v h = omega arith
from-to_bytes (suc n) v h =
    from_bytes-append (to_bytes n (v / 256)) (v % 256 ∷ []) 0
    ∙ omega (arith, from-to_bytes n (v / 256) (omega (arith, pow-suc 256 n)))

-- A statement about the last byte needs the list from its end.
to-from_bytes_acc :
    (bs : Bytes) (n acc m : ℕ)
    → IsBytes bs
    → n + length bs ≡ m
    → to_bytes m (from_bytes acc bs) ≡ to_bytes n acc ++ bs
unfolding from_bytes
to-from_bytes_acc [] n acc m h e = let e' : m ≡ n = omega arith in rw (e', append-nil)
to-from_bytes_acc (b ∷ bs) n acc m h e =
    to-from_bytes_acc bs (suc n) (acc * 256 + b) m h.1 (omega arith)
    ∙ (unfold to_bytes in rw (quotient, remainder, append_assoc))
  where
    quotient : (acc * 256 + b) / 256 ≡ acc
    quotient = omega (arith, h.0)

    remainder : (acc * 256 + b) % 256 ≡ b
    remainder = omega (arith, h.0)

pub to-from_bytes :
    (bs : Bytes) (n : ℕ) → IsBytes bs → length bs ≡ n → to_bytes n (from_bytes 0 bs) ≡ bs
unfolding to_bytes
to-from_bytes bs n h e = to-from_bytes_acc bs zero 0 n h (omega arith)

from_bytes_bound :
    (bs : Bytes) (n acc m : ℕ)
    → IsBytes bs
    → acc < 256 ^ n
    → n + length bs ≡ m
    → from_bytes acc bs < 256 ^ m
unfolding from_bytes
from_bytes_bound [] n acc m h k e = let e' : m ≡ n = omega arith in rw e' k
from_bytes_bound (b ∷ bs) n acc m h k e =
    from_bytes_bound bs (suc n) (acc * 256 + b) m h.1 (omega (arith, pow-suc 256 n)) (omega arith)

pub from_bytes-lt : (bs : Bytes) (n : ℕ) → IsBytes bs → length bs ≡ n → from_bytes 0 bs < 256 ^ n
from_bytes-lt bs n h e = from_bytes_bound bs zero 0 n h (omega arith) (omega arith)

-- The values fit the fields of a format.
abbrev pub Fits : List ℕ → List ℕ → Type 0
Fits [] [] = Unit
Fits [] (v ∷ vs) = ⊥
Fits (w ∷ ws) [] = ⊥
Fits (w ∷ ws) (v ∷ vs) = (v < 256 ^ w) × Fits ws vs

prepend-eq-some :
    (front : Bytes) (o : Option Bytes) {bs : Bytes}
    → prepend front o ≡ some bs
    → (back : Bytes) × (o ≡ some back) × (bs ≡ front ++ back)
prepend-eq-some front none h = cc
prepend-eq-some front (some back) h = (back, refl, ground arith)

pack-cons :
    (w : ℕ) (ws : List ℕ) (v : ℕ) (vs : List ℕ) {bs : Bytes}
    → pack (w ∷ ws) (v ∷ vs) ≡ some bs
    → (v < 256 ^ w) × (prepend (to_bytes w v) (pack ws vs) ≡ some bs)
unfolding pack
pack-cons w ws v vs h = ground arith

pub length-pack : (ws vs : List ℕ) {bs : Bytes} → pack ws vs ≡ some bs → length bs ≡ size ws
length-pack [] [] h = unfold pack in ground arith
length-pack [] (v ∷ vs) h = unfold pack in cc
length-pack (w ∷ ws) [] h = unfold pack in cc
length-pack (w ∷ ws) (v ∷ vs) {bs} h =
    let (back, packed, e) = prepend-eq-some _ (pack ws vs) (pack-cons w ws v vs h).1 in
    rw e (
      omega
        (arith, length-append (to_bytes w v) back, length-to_bytes w v, length-pack ws vs packed))

fields-pack : (ws vs : List ℕ) {bs : Bytes} → pack ws vs ≡ some bs → fields ws bs ≡ vs
fields-pack [] [] h = refl
fields-pack [] (v ∷ vs) h = unfold pack in cc
fields-pack (w ∷ ws) [] h = unfold pack in cc
fields-pack (w ∷ ws) (v ∷ vs) {bs} h =
    let (fits, rest) = pack-cons w ws v vs h in
    let (back, packed, e) = prepend-eq-some _ (pack ws vs) rest in
    rw (
      e,
      take-append (to_bytes w v) back w (length-to_bytes w v),
      drop-append (to_bytes w v) back w (length-to_bytes w v),
      from-to_bytes w v fits,
      fields-pack ws vs packed,
    )

-- Unpacking what was packed gives the values back.
pub unpack-pack : (ws vs : List ℕ) {bs : Bytes} → pack ws vs ≡ some bs → unpack ws bs ≡ some vs
unfolding unpack
unpack-pack ws vs h = ground (arith, length-pack ws vs h, fields-pack ws vs h)

pub pack-IsBytes : (ws vs : List ℕ) {bs : Bytes} → pack ws vs ≡ some bs → IsBytes bs
pack-IsBytes [] [] h = unfold pack in ground arith
pack-IsBytes [] (v ∷ vs) h = unfold pack in cc
pack-IsBytes (w ∷ ws) [] h = unfold pack in cc
pack-IsBytes (w ∷ ws) (v ∷ vs) h =
    let (back, packed, e) = prepend-eq-some _ (pack ws vs) (pack-cons w ws v vs h).1 in
    rw e (All-append IsByte (to_bytes w v) back (to_bytes-IsBytes w v) (pack-IsBytes ws vs packed))

-- Values that fit are packed.
pub pack-Fits : (ws vs : List ℕ) → Fits ws vs → (bs : Bytes) × (pack ws vs ≡ some bs)
unfolding pack
pack-Fits [] [] h = ([], refl)
pack-Fits [] (v ∷ vs) h = absurd h
pack-Fits (w ∷ ws) [] h = absurd h
pack-Fits (w ∷ ws) (v ∷ vs) h =
    let (back, packed) = pack-Fits ws vs h.1 in (to_bytes w v ++ back, ground (arith, packed))

-- Packing what was unpacked gives the bytes back.
pub pack-fields :
    (ws : List ℕ) (bs : Bytes) → IsBytes bs → length bs ≡ size ws → pack ws (fields ws bs) ≡ some bs
unfolding pack
pack-fields [] [] h e = refl
pack-fields [] (b ∷ bs) h e = absurd (omega arith)
pack-fields (w ∷ ws) bs h e = ground (
  arith,
  from_bytes-lt (take w bs) w (All-take IsByte w bs h) wide,
  pack-fields ws (drop w bs) (All-drop IsByte w bs h) (omega (arith, length-drop w bs)),
  to-from_bytes (take w bs) w (All-take IsByte w bs h) wide,
  take-append-drop w bs,
)
  where
    wide : length (take w bs) ≡ w
    wide = omega (arith, length-take w bs)

pub fields-Fits :
    (ws : List ℕ) (bs : Bytes) → IsBytes bs → length bs ≡ size ws → Fits ws (fields ws bs)
fields-Fits [] bs h e = tt
fields-Fits (w ∷ ws) bs h e = (
  from_bytes-lt (take w bs) w (All-take IsByte w bs h) (omega (arith, length-take w bs)),
  fields-Fits ws (drop w bs) (All-drop IsByte w bs h) (omega (arith, length-drop w bs)),
)

-- What is packed fits.
pub Fits-pack : (ws vs : List ℕ) {bs : Bytes} → pack ws vs ≡ some bs → Fits ws vs
Fits-pack [] [] h = tt
Fits-pack [] (v ∷ vs) h = unfold pack in cc
Fits-pack (w ∷ ws) [] h = unfold pack in cc
Fits-pack (w ∷ ws) (v ∷ vs) h =
    let (fits, rest) = pack-cons w ws v vs h in
    let (back, packed, e) = prepend-eq-some _ (pack ws vs) rest in (fits, Fits-pack ws vs packed)

-- Only the last field of a buffer depends on the last value.
pub pack-last :
    (ws vs : List ℕ) (w v u : ℕ) {bs cs : Bytes}
    → Fits ws vs
    → pack (ws ++ w ∷ []) (vs ++ v ∷ []) ≡ some bs
    → pack (ws ++ w ∷ []) (vs ++ u ∷ []) ≡ some cs
    → (front : Bytes) × (bs ≡ front ++ to_bytes w v) × (cs ≡ front ++ to_bytes w u)
unfolding pack
pack-last [] [] w v u f h k =
    ([], ground (arith, append-nil (to_bytes w v)), ground (arith, append-nil (to_bytes w u)))
pack-last [] (x ∷ vs) w v u f h k = absurd f
pack-last (y ∷ ws) [] w v u f h k = absurd f
pack-last (y ∷ ws) (x ∷ vs) w v u f h k =
    let (back_v, packed_v, ev) = prepend-eq-some _ _ (pack-cons y (ws ++ w ∷ []) x _ h).1 in
    let (back_u, packed_u, eu) = prepend-eq-some _ _ (pack-cons y (ws ++ w ∷ []) x _ k).1 in
    let (front, fv, fu) = pack-last ws vs w v u f.1 packed_v packed_u in
    (to_bytes y x ++ front, rw (ev, fv, append_assoc), rw (eu, fu, append_assoc))
