-- ===== src/Client/Responses/Metadata.antt =====
-- The metadata of a transfer that the server announces is what the client reads.
use hybrid_ftp_system.Prelude.{
  ℕ, zero, suc, ◌-◌, ◌≡◌, refl, ap, ◌∙◌, arith, Bool, true, false, not, List, [], ◌∷◌, ◌++◌,
  append_assoc, length, length-append, All, Bytes, some,
}
use hybrid_ftp_system.Prelude.Int.{pos}
use hybrid_ftp_system.Prelude.Text.{codes, is_empty, is_space, run_of, decimal, digits_within}
use hybrid_ftp_system.Prelude.Decimal.{
  IsWord, decimal-IsWord, is_empty-decimal, run_of-append, to_int-decimal,
}
use hybrid_ftp_system.Server.FileSystem.{crlf}
use hybrid_ftp_system.Server.Replies.{send_reply}
use hybrid_ftp_system.Server.Commands.Transfers.{announcement}
use hybrid_ftp_system.Client.Responses.{
  match_pair, with_value, metadata_keys, find_pairs, parse_transfer_metadata,
}

abbrev is_value : ℕ → Bool
is_value c = not (is_space c)

word-value : (w : Bytes) → IsWord w → All (λ c. is_value c ≡ true) w
word-value [] k = tt
word-value (c ∷ cs) (h, k) = (ap not h, word-value cs k)

with_value-word :
    (key w : Bytes) (sep : ℕ) (rest : Bytes)
    → IsWord w
    → is_empty w ≡ false
    → is_space sep ≡ true
    → with_value key (run_of is_value (w ++ sep ∷ rest)) ≡ some (key, w, sep ∷ rest)
with_value-word key w sep rest k e h =
    ap (with_value key) (run_of-append is_value w sep rest (word-value w k) (ap not h)) ∙ there w e
  where
    there :
        (w : Bytes)
        → is_empty w ≡ false
        → with_value key (w, sep ∷ rest) ≡ some (key, w, sep ∷ rest)
    there [] e = cc
    there (c ∷ cs) e = refl

module _ (w : Bytes) (sep : ℕ) (rest : Bytes) (k : IsWord w) (e : is_empty w ≡ false)
    (h : is_space sep ≡ true) where
  match-tid :
      match_pair metadata_keys (codes "TID=" ++ w ++ sep ∷ rest) ≡ some (codes "TID", w, sep ∷ rest)
  unfolding match_pair codes
  match-tid = with_value-word (codes "TID") w sep rest k e h

  match-size :
      match_pair metadata_keys (codes "SIZE=" ++ w ++ sep ∷ rest)
      ≡ some (codes "SIZE", w, sep ∷ rest)
  unfolding match_pair codes
  match-size = with_value-word (codes "SIZE") w sep rest k e h

  match-sha256 :
      match_pair metadata_keys (codes "SHA256=" ++ w ++ sep ∷ rest)
      ≡ some (codes "SHA256", w, sep ∷ rest)
  unfolding match_pair codes
  match-sha256 = with_value-word (codes "SHA256") w sep rest k e h

find_pairs-nil : (fuel : ℕ) (found : List (Bytes × Bytes)) → find_pairs fuel [] found ≡ found
unfolding find_pairs
find_pairs-nil zero found = refl
find_pairs-nil (suc fuel) found = refl

matched :
    (fuel c : ℕ) (cs : Bytes) (found : List (Bytes × Bytes)) {key value behind : Bytes}
    → match_pair metadata_keys (c ∷ cs) ≡ some (key, value, behind)
    → find_pairs (suc fuel) (c ∷ cs) found ≡ find_pairs fuel behind ((key, value) ∷ found)
unfolding find_pairs
matched fuel c cs found e = rw (find_pairs, e) refl

past_space :
    (fuel : ℕ) (cs : Bytes) (found : List (Bytes × Bytes))
    → find_pairs (suc fuel) (b' ' ∷ cs) found ≡ find_pairs fuel cs found
unfolding find_pairs match_pair codes
past_space fuel cs found = refl

past_code :
    (fuel : ℕ) (cs : Bytes) (found : List (Bytes × Bytes))
    → find_pairs (suc (suc (suc (suc fuel)))) (codes "150 " ++ cs) found ≡ find_pairs fuel cs found
unfolding find_pairs match_pair codes
past_code fuel cs found = refl

past_end :
    (fuel : ℕ) (found : List (Bytes × Bytes)) → find_pairs (suc (suc fuel)) crlf found ≡ found
unfolding find_pairs match_pair codes
past_end fuel found = find_pairs-nil fuel found

code_150 : decimal 150 ≡ codes "150"
unfolding decimal digits_within codes
code_150 = refl

assembled :
    (t z h : Bytes)
    → codes "150"
        ++ codes " "
        ++ (codes "TID=" ++ t ++ codes " SIZE=" ++ z ++ codes " SHA256=" ++ h)
        ++ crlf
      ≡ codes "150 "
        ++ (codes "TID="
            ++ t
            ++ b' ' ∷ (codes "SIZE=" ++ z ++ b' ' ∷ (codes "SHA256=" ++ h ++ crlf)))
unfolding codes
assembled t z h = simp append_assoc

module _ (transfer_id size : ℕ) (file_hash : Bytes) (word : IsWord file_hash)
    (there : is_empty file_hash ≡ false) where
  abbrev sha_part : Bytes
  sha_part = codes "SHA256=" ++ file_hash ++ crlf

  abbrev size_part : Bytes
  size_part = codes "SIZE=" ++ decimal size ++ b' ' ∷ sha_part

  abbrev tid_part : Bytes
  tid_part = codes "TID=" ++ decimal transfer_id ++ b' ' ∷ size_part

  abbrev pairs : List (Bytes × Bytes)
  pairs =
      (codes "SHA256", file_hash)
      ∷ (codes "SIZE", decimal size)
      ∷ (codes "TID", decimal transfer_id)
      ∷ []

  -- Nine rounds and the two of the line's end.
  scan :
      (fuel : ℕ)
      → find_pairs
          (suc (suc (suc (suc (suc (suc (suc (suc (suc (suc (suc fuel)))))))))))
          (codes "150 " ++ tid_part)
          []
        ≡ pairs
  unfolding codes
  scan fuel =
      past_code _ tid_part []
      ∙ matched _ _ _ [] (
          match-tid (decimal transfer_id) b' ' size_part (decimal-IsWord transfer_id)
            (is_empty-decimal transfer_id) (unfold is_space in refl))
      ∙ past_space _ size_part _
      ∙ matched _ _ _ _ (
          match-size (decimal size) b' ' sha_part (decimal-IsWord size) (is_empty-decimal size)
            (unfold is_space in refl))
      ∙ past_space _ sha_part _
      ∙ matched _ _ _ _ (match-sha256 file_hash 13 (10 ∷ []) word there (unfold is_space in refl))
      ∙ past_end fuel _

  announced :
      (send_reply 150 (announcement transfer_id (decimal size) file_hash)).text
      ≡ codes "150 " ++ tid_part
  unfolding announcement codes
  announced =
      ap (λ d. d ++ codes " " ++ announcement transfer_id (decimal size) file_hash ++ crlf) code_150
      ∙ assembled (decimal transfer_id) (decimal size) file_hash

  -- The reply 150 with a transfer's id, size and hash, where the hash is a word, gives the client
  -- exactly these three.
  pub parse_transfer_metadata-announcement :
      parse_transfer_metadata
        (send_reply 150 (announcement transfer_id (decimal size) file_hash)).text
      ≡ some (pos transfer_id, pos size, file_hash)
  unfolding parse_transfer_metadata codes
  parse_transfer_metadata-announcement =
      let text = codes "150 " ++ tid_part in
      let behind = length-append (decimal transfer_id) (b' ' ∷ size_part) in
      let left = length text - 11 in
      let rounds : length text
          ≡ suc (suc (suc (suc (suc (suc (suc (suc (suc (suc (suc left)))))))))) =
        ground (arith, behind) in
      let found : find_pairs (length text) text [] ≡ pairs =
        ap (λ n. find_pairs n text []) rounds ∙ scan left in
      rw (announced, found, to_int-decimal transfer_id, to_int-decimal size) refl
