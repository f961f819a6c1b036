-- ===== src/Prelude/Lists.antt =====
-- Lists measured and cut by native numbers, under the library's names; byte strings.
use Prim.Native.Nat.{ℕ, zero, suc, ◌+◌, ◌-◌, ◌<◌, min}
use mathlib.Core.Path.{◌≡◌, refl, sym, ap, ap₂, ◌∙◌}
use mathlib.Core.Logic.{◌≢◌, ◌⊎◌, inl, inr}
use mathlib.Core.Bool.{Bool, true, false, ◌&&◌}
use mathlib.Core.List.{List, [], ◌∷◌, ◌++◌, append_assoc, append-nil}
use mathlib.Core.Option.{Option, none, some}
use native.Mathlib.Omega.{arith}
use hybrid_ftp_system.Prelude.Tests.{◌==◌}

-- A `bytes` object.
abbrev pub Bytes : Type 0
Bytes = List ℕ

module _ {ℓ} {A : Type ℓ} where
  abbrev pub length : List A → ℕ
  length [] = 0
  length (x ∷ xs) = suc (length xs)

  abbrev pub take : ℕ → List A → List A
  take zero xs = []
  take (suc n) [] = []
  take (suc n) (x ∷ xs) = x ∷ take n xs

  abbrev pub drop : ℕ → List A → List A
  drop zero xs = xs
  drop (suc n) [] = []
  drop (suc n) (x ∷ xs) = drop n xs

  abbrev pub get_elem? : List A → ℕ → Option A
  get_elem? [] i = none
  get_elem? (x ∷ xs) zero = some x
  get_elem? (x ∷ xs) (suc i) = get_elem? xs i

  abbrev pub concat : List (List A) → List A
  concat [] = []
  concat (xs ∷ xss) = xs ++ concat xss

  abbrev pub All {κ} : (A → Type κ) → List A → Type κ
  All P [] = Unit {κ}
  All P (x ∷ xs) = P x × All P xs

  pub length-append : (xs ys : List A) → length (xs ++ ys) ≡ length xs + length ys
  length-append [] ys = omega arith
  length-append (x ∷ xs) ys = omega (arith, length-append xs ys)

  pub take-append-drop : (n : ℕ) (xs : List A) → take n xs ++ drop n xs ≡ xs
  take-append-drop zero xs = refl
  take-append-drop (suc n) [] = refl
  take-append-drop (suc n) (x ∷ xs) = ap (◌∷◌ x) (take-append-drop n xs)

  pub length-take : (n : ℕ) (xs : List A) → length (take n xs) ≡ min n (length xs)
  length-take zero xs = omega arith
  length-take (suc n) [] = omega arith
  length-take (suc n) (x ∷ xs) = omega (arith, length-take n xs)

  pub length-drop : (n : ℕ) (xs : List A) → length (drop n xs) ≡ length xs - n
  length-drop zero xs = omega arith
  length-drop (suc n) [] = omega arith
  length-drop (suc n) (x ∷ xs) = omega (arith, length-drop n xs)

  pub take-append : (xs ys : List A) (n : ℕ) → length xs ≡ n → take n (xs ++ ys) ≡ xs
  take-append [] ys zero h = refl
  take-append [] ys (suc n) h = absurd (omega arith)
  take-append (x ∷ xs) ys zero h = absurd (omega arith)
  take-append (x ∷ xs) ys (suc n) h = ap (◌∷◌ x) (take-append xs ys n (omega arith))

  pub drop-append : (xs ys : List A) (n : ℕ) → length xs ≡ n → drop n (xs ++ ys) ≡ ys
  drop-append [] ys zero h = refl
  drop-append [] ys (suc n) h = absurd (omega arith)
  drop-append (x ∷ xs) ys zero h = absurd (omega arith)
  drop-append (x ∷ xs) ys (suc n) h = drop-append xs ys n (omega arith)

  pub All-append {κ} : (P : A → Type κ) (xs ys : List A) → All P xs → All P ys → All P (xs ++ ys)
  All-append P [] ys h k = k
  All-append P (x ∷ xs) ys h k = (h.0, All-append P xs ys h.1 k)

  pub All-take {κ} : (P : A → Type κ) (n : ℕ) (xs : List A) → All P xs → All P (take n xs)
  All-take P zero xs h = tt
  All-take P (suc n) [] h = tt
  All-take P (suc n) (x ∷ xs) h = (h.0, All-take P n xs h.1)

  pub All-drop {κ} : (P : A → Type κ) (n : ℕ) (xs : List A) → All P xs → All P (drop n xs)
  All-drop P zero xs h = h
  All-drop P (suc n) [] h = tt
  All-drop P (suc n) (x ∷ xs) h = All-drop P n xs h.1

pub All-map {ℓ κ μ} :
    {A : Type ℓ} {P : A → Type κ} {Q : A → Type μ} (xs : List A)
    → ((x : A) → P x → Q x)
    → All P xs
    → All Q xs
All-map [] f h = tt
All-map (x ∷ xs) f h = (f x h.0, All-map xs f h.1)

module _ {ℓ} {A : Type ℓ} where
  pub get_elem?-lt : (xs : List A) (i : ℕ) {x : A} → get_elem? xs i ≡ some x → i < length xs
  get_elem?-lt [] i h = cc
  get_elem?-lt (x ∷ xs) zero h = omega arith
  get_elem?-lt (x ∷ xs) (suc i) h = omega (arith, get_elem?-lt xs i h)

  -- One more of the pieces is one more piece at the end.
  pub concat-take-suc :
      (xss : List (List A)) (i : ℕ) {xs : List A}
      → get_elem? xss i ≡ some xs
      → concat (take (suc i) xss) ≡ concat (take i xss) ++ xs
  concat-take-suc [] i h = cc
  concat-take-suc (x ∷ xss) zero h = ground (arith, append-nil x)
  concat-take-suc (x ∷ xss) (suc i) {xs} h =
      ap (λ t. x ++ t) (concat-take-suc xss i h) ∙ sym (append_assoc x (concat (take i xss)) xs)

  pub take-length : (xs : List A) → take (length xs) xs ≡ xs
  take-length [] = refl
  take-length (x ∷ xs) = ap (◌∷◌ x) (take-length xs)

abbrev pub IsByte : ℕ → Type 0
IsByte b = b < 256

abbrev pub IsBytes : Bytes → Type 0
IsBytes = All IsByte

-- `==` and `!=` on byte strings and on texts as code points.
abbrev pub same : Bytes → Bytes → Bool
same [] [] = true
same (x ∷ xs) (y ∷ ys) = x == y && same xs ys
same _ _ = false

pub same→eq : (xs ys : Bytes) → same xs ys ≡ true → xs ≡ ys
same→eq [] [] h = refl
same→eq [] (y ∷ ys) h = ground arith
same→eq (x ∷ xs) [] h = ground arith
same→eq (x ∷ xs) (y ∷ ys) h = ground (arith, same→eq xs ys)

pub same_refl : (xs : Bytes) → same xs xs ≡ true
same_refl [] = refl
same_refl (x ∷ xs) = ground (arith, same_refl xs)

-- Of the same length, and different in exactly one place.
abbrev pub OneByteApart : Bytes → Bytes → Type 0
OneByteApart (x ∷ xs) (y ∷ ys) = ((x ≢ y) × (xs ≡ ys)) ⊎ ((x ≡ y) × OneByteApart xs ys)
OneByteApart _ _ = ⊥

pub OneByteApart-append_left :
    (front xs ys : Bytes) → OneByteApart xs ys → OneByteApart (front ++ xs) (front ++ ys)
OneByteApart-append_left [] xs ys h = h
OneByteApart-append_left (z ∷ front) xs ys h = inr (refl, OneByteApart-append_left front xs ys h)

pub OneByteApart-append_right :
    (xs ys back : Bytes) → OneByteApart xs ys → OneByteApart (xs ++ back) (ys ++ back)
OneByteApart-append_right [] ys back h = absurd h
OneByteApart-append_right (x ∷ xs) [] back h = absurd h
OneByteApart-append_right (x ∷ xs) (y ∷ ys) back (inl (d, e)) = inl (d, ap (λ t. t ++ back) e)
OneByteApart-append_right (x ∷ xs) (y ∷ ys) back (inr (e, h)) =
    inr (e, OneByteApart-append_right xs ys back h)

-- The place lies before a cut or behind it.
pub OneByteApart-split :
    (n : ℕ) (xs ys : Bytes)
    → OneByteApart xs ys
    → (OneByteApart (take n xs) (take n ys) × (drop n xs ≡ drop n ys))
      ⊎ ((take n xs ≡ take n ys) × OneByteApart (drop n xs) (drop n ys))
OneByteApart-split zero xs ys h = inr (refl, h)
OneByteApart-split (suc n) [] ys h = absurd h
OneByteApart-split (suc n) (x ∷ xs) [] h = absurd h
OneByteApart-split (suc n) (x ∷ xs) (y ∷ ys) (inl (d, e)) =
    inl (inl (d, ap (take n) e), ap (drop n) e)
OneByteApart-split (suc n) (x ∷ xs) (y ∷ ys) (inr (e, h)) = elim (OneByteApart-split n xs ys h) [
  | inl (apart, same) ↦ inl (inr (e, apart), same)
  | inr (same, apart) ↦ inr (ap₂ ◌∷◌ e same, apart)
]

pub OneByteApart-append_cases :
    (n : ℕ) (front front' back back' : Bytes)
    → length front ≡ n
    → length front' ≡ n
    → OneByteApart (front ++ back) (front' ++ back')
    → (OneByteApart front front' × (back ≡ back')) ⊎ ((front ≡ front') × OneByteApart back back')
OneByteApart-append_cases n front front' back back' e e' h =
    rw
      (
        take-append front back n e,
        take-append front' back' n e',
        drop-append front back n e,
        drop-append front' back' n e',
      )
      at (OneByteApart-split n (front ++ back) (front' ++ back') h)

pub OneByteApart-irreflexive : (xs : Bytes) → ¬ OneByteApart xs xs
OneByteApart-irreflexive [] h = h
OneByteApart-irreflexive (x ∷ xs) (inl (d, e)) = d refl
OneByteApart-irreflexive (x ∷ xs) (inr (e, h)) = OneByteApart-irreflexive xs h

pub length-OneByteApart : (xs ys : Bytes) → OneByteApart xs ys → length xs ≡ length ys
length-OneByteApart [] ys h = absurd h
length-OneByteApart (x ∷ xs) [] h = absurd h
length-OneByteApart (x ∷ xs) (y ∷ ys) (inl (d, e)) = ap suc (ap length e)
length-OneByteApart (x ∷ xs) (y ∷ ys) (inr (e, h)) = ap suc (length-OneByteApart xs ys h)
