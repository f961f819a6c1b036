-- ===== src/Server/Paths/Inside.antt =====
-- The paths that a session may use lie in its root.
use hybrid_ftp_system.Prelude.{
  suc, ◌+◌, ◌≡◌, ◌↔◌, ◌⊎◌, inl, inr, refl, sym, ap, ◌∙◌, arith, true, Bool-cases, [], ◌∷◌, ◌++◌,
  append-nil, length, length-append, drop, drop-append, Bytes, same, same→eq, Option, none, some,
}
use hybrid_ftp_system.Server.Paths.{
  FileSystem, slash, starts_with, get_ftp_path, target_path, out_path, is_inside, checked,
  resolve_safe_path,
}

-- The root itself, or a path below it.
abbrev pub IsWithin : Bytes → Bytes → Type 0
IsWithin root path = (path ≡ root) ⊎ ((rest : Bytes) × (path ≡ root ++ slash ∷ rest))

starts_with-append : (text prefix : Bytes) → starts_with (prefix ++ text) prefix ≡ true
starts_with-append text [] = refl
starts_with-append text (c ∷ prefix) = ground (arith, starts_with-append text prefix)

starts_with-drop :
    (text prefix : Bytes)
    → starts_with text prefix ≡ true
    → text ≡ prefix ++ drop (length prefix) text
starts_with-drop text [] h = refl
starts_with-drop [] (c ∷ prefix) h = absurd (ground (arith, h))
starts_with-drop (d ∷ text) (c ∷ prefix) h =
    let same_first : d ≡ c = ground (arith, h) in
    let more : starts_with text prefix ≡ true = ground (arith, h) in
    cc (same_first, starts_with-drop text prefix more)

is_inside-IsWithin : (path root : Bytes) → is_inside path root ≡ true → IsWithin root path
unfolding is_inside
is_inside-IsWithin path root h =
    let whole = starts_with-drop path root (ground (arith, h)) in
    below (drop (length root) path) refl whole
  where
    below :
        (rest : Bytes)
        → drop (length root) path ≡ rest
        → path ≡ root ++ drop (length root) path
        → IsWithin root path
    below [] e whole = inl (whole ∙ ap (λ r. root ++ r) e ∙ append-nil root)
    below (c ∷ cs) e whole =
        let sized : length path ≡ length root + suc (length cs) =
          ap length (whole ∙ ap (λ r. root ++ r) e) ∙ length-append root (c ∷ cs) in
        let cut : c ≡ slash = ground (arith, h, sized, e) in
        inr (cs, whole ∙ ap (λ r. root ++ r) e ∙ ap (λ d. root ++ d ∷ cs) cut)

IsWithin-is_inside : (path root : Bytes) → IsWithin root path → is_inside path root ≡ true
unfolding is_inside
IsWithin-is_inside path root (inl e) =
    let all : starts_with path root ≡ true =
      rw e (ap (λ t. starts_with t root) (sym (append-nil root)) ∙ starts_with-append [] root) in
    ground (arith, all, ap length e)
IsWithin-is_inside path root (inr (rest, e)) =
    let sized = ap length e ∙ length-append root (slash ∷ rest) in
    let all : starts_with path root ≡ true = rw e (starts_with-append (slash ∷ rest) root) in
    let cut : drop (length root) path ≡ slash ∷ rest =
      rw e (drop-append root (slash ∷ rest) (length root) refl) in
    ground (arith, all, sized, cut)

checked-IsWithin :
    (out real_root : Option Bytes) (path : Bytes)
    → (checked out real_root ≡ some path)
      ↔ ((out ≡ some path) × (root : Bytes) × (real_root ≡ some root) × IsWithin root path)
checked-IsWithin none real_root path = ((λ h. cc), (λ (e, root, f, w). cc))
checked-IsWithin (some p) none path = ((λ h. cc), (λ (e, root, f, w). cc))
checked-IsWithin (some p) (some r) path = (
  (λ h.
      let inside : is_inside p r ≡ true = ground (arith, h) in
      let e : p ≡ path = ground (arith, h, inside) in
      (ap some e, r, refl, rw e at (is_inside-IsWithin p r inside))),
  (λ (e, root, f, w).
      let same_path : p ≡ path = cc in
      let same_root : r ≡ root = cc in
      ground (arith, same_path, IsWithin-is_inside p r (rw (same_path, same_root) w))),
)

module _ (fs : FileSystem) (base_dir user_input root_dir path : Bytes) where
  -- A path is given exactly when it is the resolved path of the command's argument and it is the
  -- resolved root or lies below it, at a slash.
  pub resolve_safe_path-IsWithin :
      (resolve_safe_path fs base_dir user_input root_dir ≡ some path) ↔ (
        (out_path fs (target_path base_dir user_input root_dir) ≡ some path)
        × (root : Bytes) × (fs.realpath root_dir ≡ some root)
        × IsWithin root path)
  unfolding resolve_safe_path
  resolve_safe_path-IsWithin =
      checked-IsWithin (out_path fs (target_path base_dir user_input root_dir))
        (fs.realpath root_dir) path

-- What a client is shown for a path below the root is the path from the root on.
pub get_ftp_path-below :
    (root rest : Bytes) → get_ftp_path (root ++ slash ∷ rest) root ≡ slash ∷ rest
unfolding get_ftp_path
get_ftp_path-below root rest =
    let cut = drop-append root (slash ∷ rest) (length root) refl in
    let all = starts_with-append (slash ∷ rest) root in
    let sized = length-append root (slash ∷ rest) in
    elim (Bool-cases (same (root ++ slash ∷ rest) root)) [
      | inl equal ↦
          absurd (omega (arith, sized, ap length (same→eq (root ++ slash ∷ rest) root equal)))
      | inr other ↦ ground (arith, other, all, cut)
    ]
