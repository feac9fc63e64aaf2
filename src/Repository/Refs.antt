-- ===== src/Repository/Refs.antt =====
-- repository/refs.go: IsValidRef and FindRef. The byte tests stand for those on runes: every rune that is
-- tested is below 0x80, and such a rune is one byte that is part of no other.
use go_git_scm.Base.{
  ℕ, Bool, true, false, not, ◌&&◌, ◌||◌, List, [], ◌∷◌, ltb, ◌==◌, codes, bytes_eq,
}
use go_git_scm.Object.{Bytes}

-- strings.HasPrefix(s, prefix)
unfoldable pub has_prefix : Bytes → Bytes → Bool
has_prefix s [] = true
has_prefix [] (p ∷ ps) = false
has_prefix (c ∷ s) (p ∷ ps) = c == p && has_prefix s ps

-- strings.Contains(s, sub)
unfoldable pub contains : Bytes → Bytes → Bool
contains [] sub = has_prefix [] sub
contains (c ∷ s) sub = has_prefix (c ∷ s) sub || contains s sub

-- strings.HasSuffix(s, suffix)
unfoldable pub has_suffix : Bytes → Bytes → Bool
has_suffix [] suffix = bytes_eq [] suffix
has_suffix (c ∷ s) suffix = bytes_eq (c ∷ s) suffix || has_suffix s suffix

-- The function that IsValidRef hands to strings.IndexFunc.
unfoldable pub bad_byte : ℕ → Bool
bad_byte r =
    ltb r 0x20
    || (r == 0x7f
        || (r == b' ' || (r == b'~' || (r == b'^' || (r == b':' || (r == b'?' || r == b'['))))))

-- strings.IndexFunc(s, bad_byte) != -1
unfoldable pub any_bad_byte : Bytes → Bool
any_bad_byte [] = false
any_bad_byte (c ∷ s) = bad_byte c || any_bad_byte s

abbrev pub backslash : Bytes
backslash = 0x5c ∷ []

unfoldable pub is_valid_ref : Bytes → Bool
is_valid_ref name =
    has_prefix name (codes "refs/")
    && (not (contains name (codes "/."))
        && (not (contains name (codes ".."))
            && (not (any_bad_byte name)
                && (not (has_suffix name (codes "/"))
                    && (not (contains name (codes "//"))
                        && (not (has_suffix name (codes "."))
                            && (not (has_suffix name (codes ".lock"))
                                && (not (contains name (codes "@{"))
                                    && not (contains name backslash)))))))))

-- The prefixes of `findRefList`, in order.
abbrev pub find_ref_list : List Bytes
find_ref_list =
    codes "refs/" ∷ codes "refs/tags/" ∷ codes "refs/heads/" ∷ codes "refs/remotes/" ∷ []
