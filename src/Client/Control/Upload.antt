-- ===== src/Client/Control/Upload.antt =====
-- The server reads from the client's upload command what the client has put into it.
use hybrid_ftp_system.Prelude.{
  ℕ, ◌==◌, ◌≡◌, refl, sym, ap, ◌∙◌, arith, true, false, [], ◌∷◌, ◌++◌, append_assoc, length, Bytes,
  some,
}
use hybrid_ftp_system.Prelude.Text.{
  codes, is_empty, is_space, upper, to_upper, lower, contains, decimal, split_words, split_once,
  join_with, strip,
}
use hybrid_ftp_system.Prelude.Decimal.{IsWord, decimal-IsWord, to_int-decimal}
use hybrid_ftp_system.Prelude.Words.{
  IsWord-append, split_words-end, split_words-space, strip-between, split_once-word,
}
use hybrid_ftp_system.Server.Metadata.{pop_pairs, parse_upload_metadata}
use hybrid_ftp_system.Server.Session.{command_in, commands, parse_request}
use hybrid_ftp_system.Client.Control.{upload_command}

module _ (name : Bytes) (size : ℕ) (file_hash : Bytes) (name_word : IsWord name)
    (named : is_empty name ≡ false) (hash_word : IsWord file_hash) where
  abbrev size_word : Bytes
  size_word = codes "SIZE=" ++ decimal size

  abbrev hash_word_text : Bytes
  hash_word_text = codes "SHA256=" ++ file_hash

  -- The argument of the command.
  abbrev pub upload_argument : Bytes
  upload_argument = name ++ b' ' ∷ (size_word ++ b' ' ∷ hash_word_text)

  hash_IsWord : IsWord hash_word_text
  unfolding codes is_space
  hash_IsWord =
      IsWord-append (codes "SHA256=") file_hash
        (refl, (refl, (refl, (refl, (refl, (refl, (refl, tt))))))) hash_word

  upload_words : split_words upload_argument ≡ name ∷ size_word ∷ hash_word_text ∷ []
  unfolding codes is_space
  upload_words =
      let size_is : IsWord size_word =
        IsWord-append (codes "SIZE=") (decimal size) (refl, (refl, (refl, (refl, (refl, tt)))))
          (decimal-IsWord size) in
      split_words-space name (size_word ++ b' ' ∷ hash_word_text) name_word named
      ∙ ap (◌∷◌ name) (
          split_words-space size_word hash_word_text size_is refl
          ∙ ap (◌∷◌ size_word) (split_words-end hash_word_text hash_IsWord refl))

  popped :
      contains b'=' name ≡ false
      → pop_pairs (name ∷ size_word ∷ hash_word_text ∷ [])
        ≡ (name ∷ [], (codes "SIZE", decimal size) ∷ (codes "SHA256", file_hash) ∷ [])
  unfolding pop_pairs contains split_once codes upper to_upper
  popped plain = rw plain refl

  pub read_back :
      contains b'=' name ≡ false
      → length file_hash ≡ 64
      → lower file_hash ≡ file_hash
      → parse_upload_metadata upload_argument ≡ some (name, size, file_hash)
  unfolding parse_upload_metadata codes join_with
  read_back plain sized lowered =
      let digits : (length (lower file_hash) == 64) ≡ true =
        ground (arith, ap length lowered, sized) in
      rw (upload_words, popped plain, to_int-decimal size, digits, lowered) refl

  stripped : strip upload_argument ≡ upload_argument
  unfolding codes
  stripped =
      let before = b' ' ∷ (size_word ++ b' ' ∷ []) in
      let middle : before ++ hash_word_text ≡ b' ' ∷ (size_word ++ b' ' ∷ hash_word_text) =
        simp append_assoc in
      ap (λ t. strip (name ++ t)) (sym middle)
      ∙ strip-between name before hash_word_text name_word named hash_IsWord refl
      ∙ ap (λ t. name ++ t) middle

  command_text :
      (cmd : Bytes) → upload_command cmd name size file_hash ≡ cmd ++ b' ' ∷ upload_argument
  unfolding upload_command codes
  command_text cmd = simp append_assoc

  -- The command and the argument that the server parses.
  pub parsed :
      (cmd : Bytes)
      → IsWord cmd
      → parse_request (upload_command cmd name size file_hash)
        ≡ (command_in (upper cmd) commands, upload_argument)
  unfolding parse_request
  parsed cmd cmd_word =
      rw (command_text cmd, split_once-word cmd upload_argument cmd_word, stripped) refl

  -- For a name that is a word without "=", and a hash of 64 characters that are no capitals and no
  -- white space, the server splits the client's upload command into the command's name and an
  -- argument that gives it the name, the size and the hash.
  pub upload_command-received :
      (cmd : Bytes)
      → IsWord cmd
      → contains b'=' name ≡ false
      → length file_hash ≡ 64
      → lower file_hash ≡ file_hash
      → ((parse_request (upload_command cmd name size file_hash)).0
          ≡ command_in (upper cmd) commands)
        × (parse_upload_metadata (parse_request (upload_command cmd name size file_hash)).1
            ≡ some (name, size, file_hash))
  upload_command-received cmd cmd_word plain sized lowered = (
    ap (λ r. r.0) (parsed cmd cmd_word),
    ap (λ r. parse_upload_metadata r.1) (parsed cmd cmd_word) ∙ read_back plain sized lowered,
  )
