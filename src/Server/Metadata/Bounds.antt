-- ===== src/Server/Metadata/Bounds.antt =====
-- What PORT accepts.
use hybrid_ftp_system.Prelude.{
  ℕ, ◌≤◌, ◌==◌, ◌≡◌, refl, sym, arith, Bool-cases, inl, inr, not, ◌||◌, List, [], ◌∷◌, ◌++◌, map,
  Bytes, Option, none, some, ok,
}
use hybrid_ftp_system.Prelude.Int.{ℤ, pos, negsuc, ◌+ℤ◌, scale}
use hybrid_ftp_system.Prelude.Text.{is_empty, decimal, split_on, to_int, strip}
use hybrid_ftp_system.Server.Metadata.{
  occurrences, octet, host_of, user_port, host_and_port, six_numbers, parse_port_argument,
}

-- Four octets, between dots.
pub record IsHost (ip : Bytes) : Type 0 where
  pub a : ℕ
  pub b : ℕ
  pub c : ℕ
  pub d : ℕ
  pub text : ip ≡ decimal a ++ b'.' ∷ decimal b ++ b'.' ∷ decimal c ++ b'.' ∷ decimal d
  pub octets : (a ≤ 255) × (b ≤ 255) × (c ≤ 255) × (d ≤ 255)

abbrev pub IsTarget : Bytes → ℕ → Type 0
IsTarget ip port = IsHost ip × (1024 ≤ port) × (port ≤ 65535)

octet-bound : (z : ℤ) {n : ℕ} → octet z ≡ some n → n ≤ 255
octet-bound (pos m) h = ground (arith, h)
octet-bound (negsuc m) h = absurd (ground (arith, h))

user_port-bounds : (z : ℤ) {n : ℕ} → user_port z ≡ some n → (1024 ≤ n) × (n ≤ 65535)
user_port-bounds (pos m) h = ground (arith, h)
user_port-bounds (negsuc m) h = absurd (ground (arith, h))

host_of-IsHost :
    (a b c d : Option ℕ) {ip : Bytes}
    → ((n : ℕ) → a ≡ some n → n ≤ 255)
    → ((n : ℕ) → b ≡ some n → n ≤ 255)
    → ((n : ℕ) → c ≡ some n → n ≤ 255)
    → ((n : ℕ) → d ≡ some n → n ≤ 255)
    → host_of a b c d ≡ some ip
    → IsHost ip
host_of-IsHost (some a) (some b) (some c) (some d) {ip} e f g h k =
    let text : ip ≡ decimal a ++ b'.' ∷ decimal b ++ b'.' ∷ decimal c ++ b'.' ∷ decimal d = cc in
    record {
      a = a;
      b = b;
      c = c;
      d = d;
      text = text;
      octets = (e a refl, f b refl, g c refl, h d refl);
    }
host_of-IsHost a b c d e f g h k = absurd (ground (arith, k))

host_and_port-IsTarget :
    (host : Option Bytes) (open_port : Option ℕ) {ip : Bytes} {port : ℕ}
    → ((i : Bytes) → host ≡ some i → IsHost i)
    → ((n : ℕ) → open_port ≡ some n → (1024 ≤ n) × (n ≤ 65535))
    → host_and_port host open_port ≡ ok (ip, port)
    → IsTarget ip port
host_and_port-IsTarget none open_port e f h = absurd (ground (arith, h))
host_and_port-IsTarget (some i) none e f h = absurd (ground (arith, h))
host_and_port-IsTarget (some i) (some n) {ip} {port} e f h =
    let same_ip : i ≡ ip = cc in
    let same_port : n ≡ port = cc in
    let (above, below) = f n refl in
    (rw (sym same_ip) (e i refl), rw (sym same_port) above, rw (sym same_port) below)

six_numbers-IsTarget :
    (parts : List (Option ℤ)) {ip : Bytes} {port : ℕ}
    → six_numbers parts ≡ ok (ip, port)
    → IsTarget ip port
six_numbers-IsTarget (some a ∷ some b ∷ some c ∷ some d ∷ some high ∷ some low ∷ []) h =
    host_and_port-IsTarget _ _
      (λ i e.
        host_of-IsHost (octet a) (octet b) (octet c) (octet d) (λ n. octet-bound a)
          (λ n. octet-bound b) (λ n. octet-bound c) (λ n. octet-bound d) e)
      (λ n. user_port-bounds (scale 256 high +ℤ low)) h
six_numbers-IsTarget parts h = cc

-- A PORT argument that is accepted names a host of four octets and a port from 1024 to 65535.
pub parse_port_argument-IsTarget :
    (arg : Bytes) {ip : Bytes} {port : ℕ}
    → parse_port_argument arg ≡ ok (ip, port)
    → IsTarget ip port
unfolding parse_port_argument
parse_port_argument-IsTarget arg h =
    elim (Bool-cases (is_empty arg || not (occurrences b',' arg == 5))) [
      | inl bad ↦ absurd (ground (arith, rw bad at h))
      | inr good ↦
          six_numbers-IsTarget (map (λ part. to_int (strip part)) (split_on b',' arg))
            (rw good at h)
    ]
