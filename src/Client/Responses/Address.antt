-- ===== src/Client/Responses/Address.antt =====
-- The address that PASV announces is the one that the client goes to.
use hybrid_ftp_system.Prelude.{
  ℕ, ◌+◌, ◌*◌, ◌/◌, ◌%◌, ◌==◌, ◌≡◌, refl, ap, ◌∙◌, arith, false, List, [], ◌∷◌, ◌++◌, append_assoc,
  map, All, Bytes, some, if◌then◌else◌,
}
use hybrid_ftp_system.Prelude.Text.{
  codes, is_digit, run_of, to_nat, to_int, strip, lstrip, rstrip, is_space, read_digits, decimal,
  digits_within,
}
use hybrid_ftp_system.Prelude.Decimal.{IsDigits, decimal-IsDigits, to_nat-decimal, run_of-append}
use hybrid_ftp_system.Server.Commands.Login.{passive_message, to_comma}
use hybrid_ftp_system.Server.FileSystem.{crlf}
use hybrid_ftp_system.Server.Replies.{send_reply}
use hybrid_ftp_system.Prelude.Int.{pos}
use hybrid_ftp_system.Client.Responses.{
  get_response_code, passive_address, read_fields, starts_at, separators, search_address,
}

-- Numbers, each before its separator.
abbrev fields : List (ℕ × ℕ) → Bytes → Bytes
fields [] rest = rest
fields ((n, sep) ∷ more) rest = decimal n ++ sep ∷ fields more rest

starts_at-same : (sep : ℕ) (rest : Bytes) → starts_at sep (sep ∷ rest) ≡ some rest
starts_at-same sep rest = ground arith

read_fields-fields :
    (numbers : List (ℕ × ℕ)) (rest : Bytes)
    → All (λ field. is_digit field.1 ≡ false) numbers
    → read_fields (map (λ field. field.1) numbers) (fields numbers rest)
      ≡ some (map (λ field. field.0) numbers)
unfolding read_fields
read_fields-fields [] rest h = refl
read_fields-fields ((n, sep) ∷ more) rest (h, k) =
    let run = run_of-append is_digit (decimal n) sep (fields more rest) (decimal-IsDigits n) h in
    let number : to_nat (run_of is_digit (fields ((n, sep) ∷ more) rest)).0 ≡ some n =
      ap (λ r. to_nat r.0) run ∙ to_nat-decimal n in
    let behind : starts_at sep (run_of is_digit (fields ((n, sep) ∷ more) rest)).1
        ≡ some (fields more rest) =
      ap (λ r. starts_at sep r.1) run ∙ starts_at-same sep (fields more rest) in
    rw (read_fields, number, behind, read_fields-fields more rest k) refl

map-append : (f : ℕ → ℕ) (xs ys : Bytes) → map f (xs ++ ys) ≡ map f xs ++ map f ys
map-append f [] ys = refl
map-append f (x ∷ xs) ys = ap (◌∷◌ (f x)) (map-append f xs ys)

-- Digits hold no dot.
map-digits : (ds : Bytes) → IsDigits ds → map to_comma ds ≡ ds
map-digits [] k = refl
map-digits (d ∷ ds) (h, k) =
    let other : (d == b'.') ≡ false = unfold is_digit in ground (arith, h) in
    rw (map-digits ds k) (ap (λ b. (if b then b',' else d) ∷ ds) other)

map-decimal : (n : ℕ) → map to_comma (decimal n) ≡ decimal n
map-decimal n = map-digits (decimal n) (decimal-IsDigits n)

-- A text of dotted numbers.
abbrev pub dotted : ℕ → ℕ → ℕ → ℕ → Bytes
dotted a b c d = decimal a ++ b'.' ∷ decimal b ++ b'.' ∷ decimal c ++ b'.' ∷ decimal d

map-dotted :
    (a b c d : ℕ) (rest : Bytes)
    → map to_comma (dotted a b c d) ++ rest
      ≡ decimal a ++ b',' ∷ decimal b ++ b',' ∷ decimal c ++ b',' ∷ decimal d ++ rest
map-dotted a b c d rest = simp (map-append to_comma, append_assoc, map-decimal)

-- The text of PASV, with the numbers before their separators.
announced :
    (a b c d port : ℕ) (rest : Bytes)
    → passive_message (dotted a b c d) port ++ rest
      ≡ codes "Entering Passive Mode "
        ++ b'('
          ∷ fields
              ((a, b',')
                ∷ (b, b',')
                ∷ (c, b',')
                ∷ (d, b',')
                ∷ (port / 256, b',')
                ∷ (port % 256, b')')
                ∷ [])
              rest
unfolding passive_message codes
announced a b c d port rest = simp (map-append to_comma, append_assoc, map-decimal)

-- The response that PASV is answered with, up to the parenthesis and behind it.
response_text :
    (a b c d port : ℕ)
    → (send_reply 227 (passive_message (dotted a b c d) port)).text
      ≡ codes "227 Entering Passive Mode "
        ++ b'('
          ∷ fields
              ((a, b',')
                ∷ (b, b',')
                ∷ (c, b',')
                ∷ (d, b',')
                ∷ (port / 256, b',')
                ∷ (port % 256, b')')
                ∷ [])
              crlf
unfolding decimal digits_within codes
response_text a b c d port = ap (λ t. codes "227 " ++ t) (announced a b c d port crlf)

found :
    (numbers : List ℕ) (cs : Bytes)
    → read_fields separators cs ≡ some numbers
    → (search_address (codes "227 Entering Passive Mode " ++ b'(' ∷ cs) ≡ some numbers)
      × (get_response_code (codes "227 Entering Passive Mode " ++ b'(' ∷ cs) ≡ pos 227)
unfolding search_address codes get_response_code to_int strip lstrip rstrip is_space read_digits
    is_digit
found numbers cs h = (rw h refl, ground arith)

-- The reply 227 that the server makes for a dotted address and a port sends the client to that
-- address and that port.
pub passive_address-message :
    (a b c d port : ℕ)
    → passive_address (send_reply 227 (passive_message (dotted a b c d) port)).text
      ≡ some (dotted a b c d, port)
unfolding passive_address is_digit
passive_address-message a b c d port =
    let numbers : List (ℕ × ℕ) =
      (a, b',')
      ∷ (b, b',')
      ∷ (c, b',')
      ∷ (d, b',')
      ∷ (port / 256, b',')
      ∷ (port % 256, b')')
      ∷ [] in
    let (address, code) =
      found (a ∷ b ∷ c ∷ d ∷ port / 256 ∷ port % 256 ∷ []) (fields numbers crlf)
        (read_fields-fields numbers crlf (refl, (refl, (refl, (refl, (refl, (refl, tt))))))) in
    let whole : port / 256 * 256 + port % 256 ≡ port = omega arith in
    rw (response_text a b c d port, address, code) (ap (λ p. some (dotted a b c d, p)) whole)
