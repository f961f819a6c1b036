-- ===== src/Protocol/Crc32/Detect.antt =====
-- The register of the CRC is updated injectively, so that a change of one byte always shows.
use hybrid_ftp_system.Prelude.{
  ℕ, zero, suc, ◌/◌, ◌<◌, ◌^◌, ◌≡◌, ◌≢◌, inl, inr, sym, ap, ◌∙◌, arith, [], ◌∷◌, foldl, Bytes,
  IsByte, IsBytes, OneByteApart, bit_xor,
}
use hybrid_ftp_system.Prelude.Bits.{xor-lt, xor_cancel, xor_cancel_left, and_mask_id}
use hybrid_ftp_system.Protocol.Crc32.{
  polynomial, crc32_mask, shift_bit, shift_bits, update_byte, zlib_crc32, calculate_crc32,
}

abbrev IsRegister : ℕ → Type 0
IsRegister r = r < 0x1_0000_0000

xor-IsRegister : (a b : ℕ) → IsRegister a → IsRegister b → IsRegister (bit_xor a b)
xor-IsRegister a b = xor-lt 32 a b

shift_bit-IsRegister : (r : ℕ) → IsRegister r → IsRegister (shift_bit r)
unfolding shift_bit
shift_bit-IsRegister r h = ground (arith, xor-lt 32 (r / 2) polynomial (omega arith) (omega arith))

-- The polynomial has its top bit set, so the parity of `r` shows in the top bit of the result.
shift_bit-injective : (r s : ℕ) → IsRegister r → IsRegister s → shift_bit r ≡ shift_bit s → r ≡ s
unfolding shift_bit
shift_bit-injective r s hr hs e = ground (
  arith,
  xor_cancel 32 (r / 2) polynomial (omega arith) (omega arith),
  xor_cancel 32 (s / 2) polynomial (omega arith) (omega arith),
  xor_cancel_left 32 (r / 2) polynomial (omega arith) (omega arith),
  xor_cancel_left 32 (s / 2) polynomial (omega arith) (omega arith),
  xor-lt 31 (s / 2) (r / 2) (omega arith) (omega arith),
  xor-lt 31 (r / 2) (s / 2) (omega arith) (omega arith),
  ap (λ (t : ℕ). bit_xor t polynomial) e,
  ap (λ (t : ℕ). bit_xor t (r / 2)) e,
  ap (λ (t : ℕ). bit_xor (s / 2) t) e,
  ap (λ (t : ℕ). bit_xor t (s / 2)) e,
)

shift_bits-IsRegister : (n r : ℕ) → IsRegister r → IsRegister (shift_bits n r)
unfolding shift_bits
shift_bits-IsRegister zero r h = h
shift_bits-IsRegister (suc n) r h = shift_bits-IsRegister n (shift_bit r) (shift_bit-IsRegister r h)

shift_bits-injective :
    (n r s : ℕ) → IsRegister r → IsRegister s → shift_bits n r ≡ shift_bits n s → r ≡ s
unfolding shift_bits
shift_bits-injective zero r s hr hs e = e
shift_bits-injective (suc n) r s hr hs e = shift_bit-injective r s hr hs (
    shift_bits-injective n (shift_bit r) (shift_bit s) (shift_bit-IsRegister r hr)
      (shift_bit-IsRegister s hs) e)

IsRegister-byte : (b : ℕ) → IsByte b → IsRegister b
IsRegister-byte b h = omega arith

update_byte-IsRegister : (r b : ℕ) → IsRegister r → IsByte b → IsRegister (update_byte r b)
unfolding update_byte
update_byte-IsRegister r b hr hb =
    shift_bits-IsRegister 8 (bit_xor r b) (xor-IsRegister r b hr (IsRegister-byte b hb))

-- With the byte fixed, the update is injective in the register,
update_byte-injective :
    (r s b : ℕ) → IsRegister r → IsRegister s → IsByte b → update_byte r b ≡ update_byte s b → r ≡ s
unfolding update_byte
update_byte-injective r s b hr hs hb e =
    let wide = IsRegister-byte b hb in
    sym (xor_cancel 32 r b hr wide)
    ∙ ap (λ t. bit_xor t b)
        (shift_bits-injective 8 (bit_xor r b) (bit_xor s b) (xor-IsRegister r b hr wide)
          (xor-IsRegister s b hs wide) e)
    ∙ xor_cancel 32 s b hs wide

-- and with the register fixed, in the byte.
update_byte-injective_byte :
    (r b c : ℕ) → IsRegister r → IsByte b → IsByte c → update_byte r b ≡ update_byte r c → b ≡ c
unfolding update_byte
update_byte-injective_byte r b c hr hb hc e =
    let wide_b = IsRegister-byte b hb in
    let wide_c = IsRegister-byte c hc in
    sym (xor_cancel_left 32 r b hr wide_b)
    ∙ ap (λ t. bit_xor t r)
        (shift_bits-injective 8 (bit_xor r b) (bit_xor r c) (xor-IsRegister r b hr wide_b)
          (xor-IsRegister r c hr wide_c) e)
    ∙ xor_cancel_left 32 r c hr wide_c

fold-IsRegister :
    (xs : Bytes) (r : ℕ) → IsRegister r → IsBytes xs → IsRegister (foldl update_byte r xs)
fold-IsRegister [] r hr h = hr
fold-IsRegister (x ∷ xs) r hr h =
    fold-IsRegister xs (update_byte r x) (update_byte-IsRegister r x hr h.0) h.1

fold-injective :
    (xs : Bytes) (r s : ℕ)
    → IsRegister r
    → IsRegister s
    → IsBytes xs
    → foldl update_byte r xs ≡ foldl update_byte s xs
    → r ≡ s
fold-injective [] r s hr hs h e = e
fold-injective (x ∷ xs) r s hr hs h e = update_byte-injective r s x hr hs h.0 (
    fold-injective xs (update_byte r x) (update_byte s x) (update_byte-IsRegister r x hr h.0)
      (update_byte-IsRegister s x hs h.0) h.1 e)

zlib-IsRegister : (xs : Bytes) → IsBytes xs → IsRegister (zlib_crc32 xs)
unfolding zlib_crc32
zlib-IsRegister xs h =
    xor-IsRegister _ crc32_mask (fold-IsRegister xs crc32_mask (omega arith) h) (omega arith)

-- The mask at the end of `calculate_crc32` changes nothing.
pub calculate-eq-zlib : (xs : Bytes) → IsBytes xs → calculate_crc32 xs ≡ zlib_crc32 xs
unfolding calculate_crc32
calculate-eq-zlib xs h = and_mask_id 32 (zlib_crc32 xs) (zlib-IsRegister xs h)

-- The checksum of a byte string fits the 32-bit field that carries it.
pub calculate_crc32-lt : (xs : Bytes) → IsBytes xs → calculate_crc32 xs < 2 ^ 32
calculate_crc32-lt xs h = rw (calculate-eq-zlib xs h) (zlib-IsRegister xs h)

-- The final inversion and mask lose nothing.
uninverted :
    (xs ys : Bytes)
    → IsBytes xs
    → IsBytes ys
    → calculate_crc32 xs ≡ calculate_crc32 ys
    → foldl update_byte crc32_mask xs ≡ foldl update_byte crc32_mask ys
unfolding zlib_crc32
uninverted xs ys hx hy e =
    let ones : IsRegister crc32_mask = omega arith in
    sym (xor_cancel 32 _ crc32_mask (fold-IsRegister xs crc32_mask ones hx) ones)
    ∙ ap (λ t. bit_xor t crc32_mask) (sym (calculate-eq-zlib xs hx) ∙ e ∙ calculate-eq-zlib ys hy)
    ∙ xor_cancel 32 _ crc32_mask (fold-IsRegister ys crc32_mask ones hy) ones

-- From one register, two byte strings that differ in one byte lead to different registers.
fold-OneByteApart :
    (xs ys : Bytes) (r : ℕ)
    → IsRegister r
    → IsBytes xs
    → IsBytes ys
    → OneByteApart xs ys
    → foldl update_byte r xs ≢ foldl update_byte r ys
fold-OneByteApart [] ys r hr hx hy d = absurd d
fold-OneByteApart (x ∷ xs) [] r hr hx hy d = absurd d
fold-OneByteApart (x ∷ xs) (y ∷ ys) r hr hx hy (inl (differ, same)) = λ e. differ (
    update_byte-injective_byte r x y hr hx.0 hy.0 (
      fold-injective xs (update_byte r x) (update_byte r y) (update_byte-IsRegister r x hr hx.0)
        (update_byte-IsRegister r y hr hy.0) hx.1
        (e ∙ ap (foldl update_byte (update_byte r y)) (sym same))))
fold-OneByteApart (x ∷ xs) (y ∷ ys) r hr hx hy (inr (same, apart)) = λ e.
    fold-OneByteApart xs ys (update_byte r x) (update_byte-IsRegister r x hr hx.0) hx.1 hy.1 apart
      (e ∙ ap (λ b. foldl update_byte (update_byte r b) ys) (sym same))

-- Two byte strings that differ in exactly one byte have different checksums.
pub calculate_crc32-OneByteApart :
    (xs ys : Bytes)
    → IsBytes xs
    → IsBytes ys
    → OneByteApart xs ys
    → calculate_crc32 xs ≢ calculate_crc32 ys
calculate_crc32-OneByteApart xs ys hx hy apart e =
    fold-OneByteApart xs ys crc32_mask (omega arith) hx hy apart (uninverted xs ys hx hy e)
