-- ===== src/Server/Paths.antt =====
-- server/tcp_server.py: the paths of a session. A text is its code points; `os.path.join`,
-- `dirname` and `basename` are those of POSIX. The file system is a parameter.
pub mod Inside
use hybrid_ftp_system.Prelude.{
  ℕ, zero, suc, ◌<◌, ◌==◌, ◌≡◌, ◌≢◌, ◌⊎◌, inl, inr, refl, sym, ap, ◌∙◌, arith, Bool, true, false,
  Bool-cases, not, ◌&&◌, ◌||◌, ltb, List, [], ◌∷◌, ◌++◌, append-nil, length, length-append, drop,
  drop-append, get_elem?, Bytes, same, same→eq, same_refl, Option, none, some, if◌then◌else◌,
}
use hybrid_ftp_system.Prelude.Text.{is_empty}

-- `os.path.exists` and `os.path.realpath`, which may raise.
pub record FileSystem : Type 0 where
  pub exists : Bytes → Bool
  pub realpath : Bytes → Option Bytes

abbrev pub slash : ℕ
slash = 47

abbrev pub starts_with_slash : Bytes → Bool
starts_with_slash [] = false
starts_with_slash (c ∷ cs) = c == slash

abbrev pub ends_with_slash : Bytes → Bool
ends_with_slash [] = false
ends_with_slash (c ∷ []) = c == slash
ends_with_slash (c ∷ d ∷ cs) = ends_with_slash (d ∷ cs)

-- `text.lstrip('/')`
abbrev pub lstrip_slash : Bytes → Bytes
lstrip_slash [] = []
lstrip_slash (c ∷ cs) = let rest = lstrip_slash cs in if c == slash then rest else c ∷ cs

-- `os.path.join(a, b)`
unfoldable pub join : Bytes → Bytes → Bytes
join a b =
    if starts_with_slash b
    then b
    else if is_empty a || ends_with_slash a
    then a ++ b
    else a ++ slash ∷ b

-- A path cut behind its last slash.
abbrev pub split_last : Bytes → Bytes × Bytes
split_last [] = ([], [])
split_last (c ∷ cs) =
    let (head, tail) = split_last cs in
    if c == slash || not (is_empty head) then (c ∷ head, tail) else ([], c ∷ tail)

abbrev pub all_slashes : Bytes → Bool
all_slashes [] = true
all_slashes (c ∷ cs) = c == slash && all_slashes cs

-- `head.rstrip('/')`
abbrev pub rstrip_slash : Bytes → Bytes
rstrip_slash [] = []
rstrip_slash (c ∷ cs) =
    let rest = rstrip_slash cs in if c == slash && is_empty rest then [] else c ∷ rest

-- `os.path.dirname` and `os.path.basename`
unfoldable pub dirname : Bytes → Bytes
dirname p = let head = (split_last p).0 in if all_slashes head then head else rstrip_slash head

unfoldable pub basename : Bytes → Bytes
basename p = (split_last p).1

-- `text.startswith(prefix)`
abbrev pub starts_with : Bytes → Bytes → Bool
starts_with text [] = true
starts_with [] (c ∷ prefix) = false
starts_with (d ∷ text) (c ∷ prefix) = d == c && starts_with text prefix

-- `get_ftp_path`
unfoldable pub get_ftp_path : Bytes → Bytes → Bytes
get_ftp_path full_path root_dir =
    if same full_path root_dir
    then slash ∷ []
    else if starts_with full_path root_dir
    then (let rel = drop (length root_dir) full_path in if is_empty rel then slash ∷ [] else rel)
    else slash ∷ []

-- The target of a command's argument.
unfoldable pub target_path : Bytes → Bytes → Bytes → Bytes
target_path base_dir user_input root_dir =
    if is_empty user_input
    then base_dir
    else if starts_with_slash user_input
    then join root_dir (lstrip_slash user_input)
    else join base_dir user_input

-- The checks of the path against the root.
unfoldable pub is_inside : Bytes → Bytes → Bool
is_inside path real_root =
    not (ltb (length path) (length real_root))
    && starts_with path real_root
    && (not (ltb (length real_root) (length path))
        || starts_with_slash (drop (length real_root) path))

-- The end of the `try`: the resolved path and the resolved root.
abbrev pub checked : Option Bytes → Option Bytes → Option Bytes
checked none root = none
checked (some path) none = none
checked (some path) (some real_root) = if is_inside path real_root then some path else none

module _ (fs : FileSystem) where
  open fs use {exists, realpath}

  -- `out_abs_path`, or nothing where the call returns early or raises.
  unfoldable pub out_path : Bytes → Option Bytes
  out_path target =
      if exists target
      then realpath target
      else (let parent_dir = dirname target in
          if is_empty parent_dir || not (exists parent_dir)
          then none
          else (elim (realpath parent_dir) [
            | none ↦ none
            | some parent ↦ some (join parent (basename target))
          ]))

  -- `resolve_safe_path`; `none` is `(False, "")`.
  unfoldable pub resolve_safe_path : Bytes → Bytes → Bytes → Option Bytes
  resolve_safe_path base_dir user_input root_dir =
      checked (out_path (target_path base_dir user_input root_dir)) (realpath root_dir)
