-- ===== src/Server/FileSystem.antt =====
-- server/file_system.py. What the operating system answers about a disk, and how a call of it
-- changes the disk, are parameters; a call that raises answers `none`, or `false` and the disk that
-- it left.
pub mod Unique
use hybrid_ftp_system.Prelude.{
  ℕ, zero, suc, ◌+◌, ◌-◌, ◌==◌, Bool, true, false, not, ◌&&◌, ◌||◌, ltb, leb, List, [], ◌∷◌, ◌++◌,
  map, concat, length, foldl, Bytes, same, Option, none, some, if◌then◌else◌,
}
use hybrid_ftp_system.Prelude.Int.{ℤ, pos, negsuc}
use hybrid_ftp_system.Prelude.Text.{
  codes, is_empty, strip, split_on, split_once, split_words, contains, decimal,
}
use hybrid_ftp_system.Protocol.FileHash.{Sha256, read_chunks}
use hybrid_ftp_system.Server.Paths.{FileSystem, join}

-- What `os.stat` tells of an entry, with its time as `%b %d %H:%M` shows it.
pub record Stat : Type 0 where
  pub is_dir : Bool
  pub size : ℕ
  pub shown_time : Bytes

-- The calls of `os`, `time` and `pathlib`; `utc_time` is the time of change as `%Y%m%d%H%M%S`
-- shows it, and `has_partial base name` says that `base` holds a file `<name>.upload.*`.
-- `write_temp` is a new `NamedTemporaryFile` of the system's own folder with its content: its path, or
-- nothing where a call raises.
pub record Os (Disk : Type 0) : Type 0 where
  pub files : Disk → FileSystem
  pub isdir : Disk → Bytes → Bool
  pub getsize : Disk → Bytes → Option ℕ
  pub utc_time : Disk → Bytes → Option Bytes
  pub listdir : Disk → Bytes → Option (List Bytes)
  pub stat : Disk → Bytes → Option Stat
  pub read : Disk → Bytes → Option Bytes
  pub has_partial : Disk → Bytes → Bytes → Bool
  pub makedirs : Bytes → Disk → Bool × Disk
  pub rmdir : Bytes → Disk → Bool × Disk
  pub remove : Bytes → Disk → Bool × Disk
  pub rename : Bytes → Bytes → Disk → Bool × Disk
  pub write_temp : Bytes → Disk → Option Bytes × Disk

-- `USERS_FILE`: there is none, or the lines that its iteration gives up to its end, or up to the
-- exception of an `open` or a decoding that fails.
pub data UsersFile : Type 0 where
  absent : UsersFile
  present : List Bytes → UsersFile

-- A line with exactly two parts.
abbrev pub two_parts : List Bytes → Option (Bytes × Bytes)
two_parts (u ∷ p ∷ []) = some (u, p)
two_parts parts = none

abbrev pub colon_parts : Bytes × Option Bytes → Option (Bytes × Bytes)
colon_parts (u, none) = none
colon_parts (u, some p) = some (u, p)

abbrev pub starts_with_hash : Bytes → Bool
starts_with_hash [] = false
starts_with_hash (c ∷ cs) = c == b'#'

-- The user and the password of a line, if it has any.
unfoldable pub credentials : Bytes → Option (Bytes × Bytes)
credentials raw =
    let line = strip raw in
    if is_empty line || starts_with_hash line
    then none
    else if contains b':' line
    then colon_parts (split_once b':' line)
    else two_parts (split_words line)

abbrev pub agrees : Bytes → Bytes → Option (Bytes × Bytes) → Bool
agrees username password none = false
agrees username password (some (u, p)) = same u username && same p password

abbrev pub any_line : (Bytes → Bool) → List Bytes → Bool
any_line test [] = false
any_line test (l ∷ ls) = test l || any_line test ls

-- `verify_user_credentials`
unfoldable pub verify_user_credentials : UsersFile → Bytes → Bytes → Bool
verify_user_credentials users username password = elim users [
  | absent ↦ true
  | present lines ↦ any_line (λ line. agrees username password (credentials line)) lines
]

-- `entries.sort()`, by code points.
unfoldable pub text_leb : Bytes → Bytes → Bool
text_leb [] t = true
text_leb (c ∷ s) [] = false
text_leb (c ∷ s) (d ∷ t) = ltb c d || (c == d && text_leb s t)

unfoldable pub insert : Bytes → List Bytes → List Bytes
insert e [] = e ∷ []
insert e (x ∷ xs) = let rest = insert e xs in if text_leb e x then e ∷ x ∷ xs else x ∷ rest

unfoldable pub sort : List Bytes → List Bytes
sort [] = []
sort (x ∷ xs) = insert x (sort xs)

abbrev pub crlf : Bytes
crlf = 13 ∷ 10 ∷ []

abbrev pub spaces : ℕ → Bytes
spaces zero = []
spaces (suc n) = b' ' ∷ spaces n

-- `{size:8d}`
unfoldable pub padded : ℕ → Bytes
padded n = let digits = decimal n in spaces (8 - length digits) ++ digits

-- One line of `get_directory_listing`; an entry that `stat` refuses has none.
unfoldable pub entry_line : Bytes → Option Stat → Bytes
entry_line name none = []
entry_line name (some st) =
    (if st.is_dir then codes "drwxr-xr-x" else codes "-rw-r--r--")
    ++ codes "  1 owner    group    "
    ++ padded st.size
    ++ codes " "
    ++ st.shown_time
    ++ codes " "
    ++ name
    ++ crlf

-- The suffix of a last path component: from its last dot on, unless that is the first or the last
-- character.
abbrev pub from_last_dot : Bytes → Option Bytes
from_last_dot [] = none
from_last_dot (c ∷ cs) = elim (from_last_dot cs) [
  | some found ↦ some found
  | none ↦ if c == b'.' then some (c ∷ cs) else none
]

abbrev pub longer_than_dot : Option Bytes → Bytes
longer_than_dot none = []
longer_than_dot (some []) = []
longer_than_dot (some (c ∷ [])) = []
longer_than_dot (some (c ∷ d ∷ cs)) = c ∷ d ∷ cs

unfoldable pub name_suffix : Bytes → Bytes
name_suffix [] = []
name_suffix (c ∷ cs) =
    let found = longer_than_dot (from_last_dot (c ∷ cs)) in
    if length found == length (c ∷ cs) then [] else found

-- `Path(text).name`: the last component that is neither empty nor a single dot.
abbrev pub last_name : List Bytes → Bytes
last_name [] = []
last_name (p ∷ ps) =
    let behind = last_name ps in
    if not (is_empty behind) then behind else if same p (b'.' ∷ []) then [] else p

unfoldable pub suffix : Bytes → Bytes
suffix text = name_suffix (last_name (split_on b'/' text))

-- The name that a `count` gives.
unfoldable pub stou_name : ℕ → ℕ → Bytes → ℕ → Bytes
stou_name prefix_id timestamp ext count =
    codes "stou_"
    ++ decimal prefix_id
    ++ codes "_"
    ++ decimal timestamp
    ++ codes "_"
    ++ decimal count
    ++ ext

module _ {Disk : Type 0} (os : Os Disk) where
  abbrev pub exists : Disk → Bytes → Bool
  exists disk path = (os.files disk).exists path

  abbrev pub is_directory : Disk → Bytes → Bool
  is_directory disk path = os.isdir disk path

  abbrev pub create_directory : Bytes → Disk → Bool × Disk
  create_directory path disk = os.makedirs path disk

  abbrev pub remove_directory : Bytes → Disk → Bool × Disk
  remove_directory path disk = os.rmdir path disk

  abbrev pub remove_file : Bytes → Disk → Bool × Disk
  remove_file path disk = os.remove path disk

  abbrev pub rename_path : Bytes → Bytes → Disk → Bool × Disk
  rename_path old_path new_path disk = os.rename old_path new_path disk

  -- `get_file_size`: -1 where `os.path.getsize` raises.
  unfoldable pub get_file_size : Disk → Bytes → ℤ
  get_file_size disk path = elim (os.getsize disk path) [ none ↦ negsuc 0 | some size ↦ pos size ]

  unfoldable pub get_file_mtime : Disk → Bytes → Bytes
  get_file_mtime disk path = elim (os.utc_time disk path) [ none ↦ [] | some time ↦ time ]

  unfoldable pub get_directory_listing : Disk → Bytes → Bytes
  get_directory_listing disk dir_path = elim (os.listdir disk dir_path) [
    | none ↦ []
    | some entries ↦
        concat (map (λ name. entry_line name (os.stat disk (join dir_path name))) (sort entries))
  ]

  unfoldable pub get_simple_listing : Disk → Bytes → Bytes
  get_simple_listing disk dir_path = elim (os.listdir disk dir_path) [
    | none ↦ []
    | some entries ↦ concat (map (λ name. name ++ crlf) (sort entries))
  ]

  unfoldable pub calculate_sha256 : Sha256 → Disk → Bytes → Bytes
  calculate_sha256 sha disk path = elim (os.read disk path) [
    | none ↦ []
    | some content ↦ sha.hexdigest (foldl sha.update sha.start (read_chunks 4096 content))
  ]

  -- No file of that name, and none of its partial files.
  unfoldable pub is_free : Disk → Bytes → Bytes → Bool
  is_free disk base_dir name =
      not (exists disk (join base_dir name)) && not (os.has_partial disk base_dir name)

  -- The loop from `count` on, for so many rounds.
  unfoldable pub unique_within : ℕ → Disk → Bytes → (ℕ → Bytes) → ℕ → Option Bytes
  unique_within zero disk base_dir name count = none
  unique_within (suc rounds) disk base_dir name count = elim (is_free disk base_dir (name count)) [
    | true ↦ some (name count)
    | false ↦ unique_within rounds disk base_dir name (suc count)
  ]

  -- `generate_unique_filename`, at the time `timestamp`.
  unfoldable pub generate_unique_filename : ℕ → Disk → Bytes → ℕ → ℕ → Bytes → Option Bytes
  generate_unique_filename rounds disk base_dir prefix_id timestamp original_filename =
      unique_within rounds disk base_dir
        (stou_name prefix_id timestamp (suffix (strip original_filename))) 0
