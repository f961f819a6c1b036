-- ===== src/Prelude/Words.antt =====
-- Words between single spaces.
use Prim.Native.Nat.{ℕ}
use mathlib.Core.Path.{◌≡◌, refl, ap, ◌∙◌}
use mathlib.Core.Bool.{Bool, true, false, ◌&&◌}
use mathlib.Core.List.{List, [], ◌∷◌, ◌++◌}
use mathlib.Core.Option.{some}
use native.Mathlib.Omega.{arith}
use hybrid_ftp_system.Prelude.Tests.{◌==◌, if◌then◌else◌}
use hybrid_ftp_system.Prelude.Lists.{Bytes}
use hybrid_ftp_system.Prelude.Text.{
  is_empty, is_space, add_word, words_from, split_words, lstrip, rstrip, strip, split_once,
}
use hybrid_ftp_system.Prelude.Decimal.{IsWord, rstrip-IsWord}

pub IsWord-append : (v w : Bytes) → IsWord v → IsWord w → IsWord (v ++ w)
IsWord-append [] w h k = k
IsWord-append (c ∷ v) w (e, h) k = (e, IsWord-append v w h k)

words_from-end : (w : Bytes) → IsWord w → words_from w ≡ (w, [])
unfolding words_from
words_from-end [] h = refl
words_from-end (c ∷ cs) (e, h) = rw (e, words_from-end cs h) refl

words_from-space :
    (w rest : Bytes) → IsWord w → words_from (w ++ b' ' ∷ rest) ≡ (w, split_words rest)
unfolding words_from split_words is_space
words_from-space [] rest h = refl
words_from-space (c ∷ cs) rest (e, h) = rw (e, words_from-space cs rest h) refl

add_word-there :
    (w : Bytes) (words : List Bytes) → is_empty w ≡ false → add_word w words ≡ w ∷ words
add_word-there [] words e = cc
add_word-there (c ∷ cs) words e = refl

pub split_words-end : (w : Bytes) → IsWord w → is_empty w ≡ false → split_words w ≡ w ∷ []
unfolding split_words
split_words-end w h e = ap (λ r. add_word r.0 r.1) (words_from-end w h) ∙ add_word-there w [] e

pub split_words-space :
    (w rest : Bytes)
    → IsWord w
    → is_empty w ≡ false
    → split_words (w ++ b' ' ∷ rest) ≡ w ∷ split_words rest
split_words-space w rest h e =
    unfold split_words in
    ap (λ r. add_word r.0 r.1) (words_from-space w rest h) ∙ add_word-there w (split_words rest) e

is_empty-append : (xs ys : Bytes) → is_empty ys ≡ false → is_empty (xs ++ ys) ≡ false
is_empty-append [] ys e = e
is_empty-append (c ∷ cs) ys e = refl

keeps :
    (b : Bool) (c : ℕ) (t : Bytes)
    → is_empty t ≡ false
    → (if b && is_empty t then [] else c ∷ t) ≡ c ∷ t
keeps true c t e = rw e refl
keeps false c t e = refl

-- A text whose end is no white space, behind anything.
pub rstrip-append :
    (xs ys : Bytes) → is_empty ys ≡ false → rstrip ys ≡ ys → rstrip (xs ++ ys) ≡ xs ++ ys
unfolding rstrip
rstrip-append [] ys e h = h
rstrip-append (c ∷ cs) ys e h =
    rw (rstrip-append cs ys e h) (keeps (is_space c) c (cs ++ ys) (is_empty-append cs ys e))

pub strip-between :
    (w xs v : Bytes)
    → IsWord w
    → is_empty w ≡ false
    → IsWord v
    → is_empty v ≡ false
    → strip (w ++ (xs ++ v)) ≡ w ++ (xs ++ v)
strip-between [] xs v h e k f = cc
strip-between (c ∷ cs) xs v (a, h) e k f =
    let front : lstrip ((c ∷ cs) ++ (xs ++ v)) ≡ (c ∷ cs) ++ (xs ++ v) =
      unfold lstrip in rw a refl in
    unfold strip in
    ap rstrip front
    ∙ rstrip-append (c ∷ cs) (xs ++ v) (is_empty-append xs v f)
        (rstrip-append xs v f (rstrip-IsWord v k))

pub split_once-word :
    (w rest : Bytes) → IsWord w → split_once b' ' (w ++ b' ' ∷ rest) ≡ (w, some rest)
unfolding split_once is_space
split_once-word [] rest h = refl
split_once-word (c ∷ cs) rest (e, h) =
    let other : (c == b' ') ≡ false = ground (arith, e) in
    rw (split_once-word cs rest h, other) refl
