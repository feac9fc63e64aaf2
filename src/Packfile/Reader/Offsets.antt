-- ===== src/Packfile/Reader/Offsets.antt =====
-- ReadObject of a delta that names its base by an offset.
use go_git_scm.Base.{ℕ, ◌≡◌, ◌++◌, ok}
use go_git_scm.Object.{Bytes, Object}
use go_git_scm.Packfile.Base128.{read_base128_mbe}
use go_git_scm.Packfile.Reader.{Reader}

-- The bytes are read as this offset.
unfoldable pub Spells : ℕ → Bytes → Type 0
Spells neg_ofs bytes = (rest : Bytes) → read_base128_mbe (bytes ++ rest) ≡ ok (neg_ofs, rest)
