-- ===== src/Client/Control/Port.antt =====
-- The server reads from the client's PORT command the address that the client has bound.
use hybrid_ftp_system.Prelude.{
  ℕ, suc, ◌+◌, ◌*◌, ◌/◌, ◌%◌, ◌≤◌, ◌==◌, ◌≡◌, refl, ap, ◌∙◌, arith, true, false, List, [], ◌∷◌,
  ◌++◌, append_assoc, length, map, Bytes, some, ok, if◌then◌else◌,
}
use hybrid_ftp_system.Prelude.Text.{
  codes, is_empty, is_space, is_digit, split_on, onto_first, strip, to_int, upper, to_upper,
  decimal, join_with,
}
use hybrid_ftp_system.Prelude.Int.{pos}
use hybrid_ftp_system.Prelude.Decimal.{
  IsDigits, IsWord, decimal-IsDigits, decimal-IsWord, strip-IsWord, to_int-decimal,
  is_empty-decimal,
}
use hybrid_ftp_system.Prelude.Words.{IsWord-append, split_once-word}
use hybrid_ftp_system.Server.Metadata.{
  occurrences, six_numbers, octet, user_port, parse_port_argument,
}
use hybrid_ftp_system.Server.Session.{cmd_port, command_in, commands, parse_request}
use hybrid_ftp_system.Client.Responses.Address.{dotted}
use hybrid_ftp_system.Client.Control.{port_text}

module _ (sep : ℕ) (other : is_digit sep ≡ false) where
  differs : (d : ℕ) → is_digit d ≡ true → (d == sep) ≡ false
  unfolding is_digit
  differs d h = ground (arith, h, other)

  split_on-end : (ds : Bytes) → IsDigits ds → split_on sep ds ≡ ds ∷ []
  unfolding split_on
  split_on-end [] h = refl
  split_on-end (d ∷ ds) (e, h) = rw (split_on-end ds h, differs d e) refl

  split_on-digits :
      (ds rest : Bytes) → IsDigits ds → split_on sep (ds ++ sep ∷ rest) ≡ ds ∷ split_on sep rest
  unfolding split_on
  split_on-digits [] rest h =
      ap (λ b. if b then [] ∷ split_on sep rest else onto_first sep (split_on sep rest)) here
    where
      here : (sep == sep) ≡ true
      here = ground arith
  split_on-digits (d ∷ ds) rest (e, h) = rw (split_on-digits ds rest h, differs d e) refl

  occurrences-end : (ds : Bytes) → IsDigits ds → occurrences sep ds ≡ 0
  occurrences-end [] h = refl
  occurrences-end (d ∷ ds) (e, h) = rw (occurrences-end ds h, differs d e) refl

  occurrences-digits :
      (ds rest : Bytes)
      → IsDigits ds
      → occurrences sep (ds ++ sep ∷ rest) ≡ suc (occurrences sep rest)
  occurrences-digits [] rest h = ground arith
  occurrences-digits (d ∷ ds) rest (e, h) = rw (occurrences-digits ds rest h, differs d e) refl

-- Numbers with a separator between them.
abbrev listed : ℕ → ℕ → List ℕ → Bytes
listed sep n [] = decimal n
listed sep n (m ∷ more) = decimal n ++ sep ∷ listed sep m more

split_on-listed :
    (sep n : ℕ) (more : List ℕ)
    → is_digit sep ≡ false
    → split_on sep (listed sep n more) ≡ map decimal (n ∷ more)
split_on-listed sep n [] h = split_on-end sep h (decimal n) (decimal-IsDigits n)
split_on-listed sep n (m ∷ more) h =
    split_on-digits sep h (decimal n) (listed sep m more) (decimal-IsDigits n)
    ∙ ap (◌∷◌ (decimal n)) (split_on-listed sep m more h)

listed-IsWord : (n : ℕ) (more : List ℕ) → IsWord (listed b',' n more)
unfolding is_space
listed-IsWord n [] = decimal-IsWord n
listed-IsWord n (m ∷ more) =
    IsWord-append (decimal n) (b',' ∷ listed b',' m more) (decimal-IsWord n)
      (refl, listed-IsWord m more)

join_with-decimals :
    (n : ℕ) (more : List ℕ) → join_with (codes ",") (map decimal (n ∷ more)) ≡ listed b',' n more
unfolding join_with codes
join_with-decimals n [] = refl
join_with-decimals n (m ∷ more) =
    append_assoc (decimal n) (b',' ∷ []) (join_with (codes ",") (map decimal (m ∷ more)))
    ∙ ap (λ t. decimal n ++ b',' ∷ t) (join_with-decimals m more)

occurrences-listed : (n : ℕ) (more : List ℕ) → occurrences b',' (listed b',' n more) ≡ length more
unfolding is_digit
occurrences-listed n [] = occurrences-end b',' refl (decimal n) (decimal-IsDigits n)
occurrences-listed n (m ∷ more) =
    occurrences-digits b',' refl (decimal n) (listed b',' m more) (decimal-IsDigits n)
    ∙ ap suc (occurrences-listed m more)

is_empty-behind : (ds rest : Bytes) → is_empty ds ≡ false → is_empty (ds ++ rest) ≡ false
is_empty-behind [] rest e = cc
is_empty-behind (d ∷ ds) rest e = refl

port_word : IsWord (codes "PORT")
unfolding codes is_space
port_word = (refl, (refl, (refl, (refl, tt))))

port_name : command_in (upper (codes "PORT")) commands ≡ cmd_port
unfolding codes upper to_upper commands
port_name = refl

octet_small : (n : ℕ) → n ≤ 255 → octet (pos n) ≡ some n
octet_small n h = ground (arith, h)

-- The tests of the numbers.
decided :
    {a b c d port : ℕ}
    → a ≤ 255
    → b ≤ 255
    → c ≤ 255
    → d ≤ 255
    → 1024 ≤ port
    → port ≤ 65535
    → six_numbers (
        some (pos a)
        ∷ some (pos b)
        ∷ some (pos c)
        ∷ some (pos d)
        ∷ some (pos (port / 256))
        ∷ some (pos (port % 256))
        ∷ [])
      ≡ ok (dotted a b c d, port)
decided {a} {b} {c} {d} {port} e f g h above below =
    let whole : port / 256 * 256 + port % 256 ≡ port = omega arith in
    let open_port : user_port (pos port) ≡ some port = ground (arith, above, below) in
    rw
      (
        octet_small a e,
        octet_small b f,
        octet_small c g,
        octet_small d h,
        ap (λ n. user_port (pos n)) whole,
        open_port,
      )
      refl

module _ (a b c d port : ℕ) where
  abbrev numbers : List ℕ
  numbers = b ∷ c ∷ d ∷ port / 256 ∷ port % 256 ∷ []

  abbrev port_argument : Bytes
  port_argument = listed b',' a numbers

  dotted-listed : dotted a b c d ≡ listed b'.' a (b ∷ c ∷ d ∷ [])
  dotted-listed = simp append_assoc

  command_text :
      port_text (record { host = dotted a b c d; port = port })
      ≡ codes "PORT" ++ b' ' ∷ port_argument
  unfolding port_text codes is_digit
  command_text =
      ap
        (λ parts.
          codes "PORT "
          ++ join_with (codes ",") (parts ++ decimal (port / 256) ∷ decimal (port % 256) ∷ []))
        (ap (split_on b'.') dotted-listed ∙ split_on-listed b'.' a (b ∷ c ∷ d ∷ []) refl)
      ∙ ap (λ t. codes "PORT " ++ t) (join_with-decimals a numbers)

  number_of : (n : ℕ) → to_int (strip (decimal n)) ≡ some (pos n)
  number_of n = ap to_int (strip-IsWord (decimal n) (decimal-IsWord n)) ∙ to_int-decimal n

  counted : occurrences b',' port_argument ≡ 5
  counted = occurrences-listed a numbers

  not_empty : is_empty port_argument ≡ false
  not_empty = is_empty-behind (decimal a) _ (is_empty-decimal a)

  module _ (a_octet : a ≤ 255) (b_octet : b ≤ 255) (c_octet : c ≤ 255) (d_octet : d ≤ 255)
      (above : 1024 ≤ port) (below : port ≤ 65535) where
    read_back : parse_port_argument port_argument ≡ ok (dotted a b c d, port)
    unfolding parse_port_argument is_digit
    read_back =
        let parts : map (λ part. to_int (strip part)) (split_on b',' port_argument)
            ≡ some (pos a)
              ∷ some (pos b)
              ∷ some (pos c)
              ∷ some (pos d)
              ∷ some (pos (port / 256))
              ∷ some (pos (port % 256))
              ∷ [] =
          rw
            (
              split_on-listed b',' a numbers refl,
              number_of a,
              number_of b,
              number_of c,
              number_of d,
              number_of (port / 256),
              number_of (port % 256),
            )
            refl in
        rw (not_empty, counted, parts) (decided a_octet b_octet c_octet d_octet above below)

    -- For octets and an unprivileged port, the server takes the client's PORT command for PORT, and
    -- reads from its argument the address and the port that the client has put in.
    pub port_text-received :
        ((parse_request (port_text (record { host = dotted a b c d; port = port }))).0 ≡ cmd_port)
        × (parse_port_argument
              (parse_request (port_text (record { host = dotted a b c d; port = port }))).1
            ≡ ok (dotted a b c d, port))
    unfolding parse_request
    port_text-received =
        let plain = split_once-word (codes "PORT") port_argument port_word in
        rw (command_text, plain, strip-IsWord port_argument (listed-IsWord a numbers))
          (port_name, read_back)
