-- ===== src/Object/Decode.antt =====
-- object/object.go: New and DecodeID.
pub mod RoundTrip
use go_git_scm.Base.{
  ℕ, ◌+◌, ◌-◌, ◌*◌, ◌&&◌, ◌||◌, List, [], ◌∷◌, Result, ok, err, ◌>>=◌, length, ltb, leb, ◌==◌,
  if◌then◌else◌, pos, negsuc,
}
use go_git_scm.Object.{
  Bytes, ObjectId, zero_id, id_size, Signature, Object, commit, tree, blob, tag, type_unknown,
  type_commit, type_tree, type_blob, type_tag, Commit, Tag,
}
use go_git_scm.Object.Marshal.{type_error}
use go_git_scm.Object.Marshal

-- The zero Signature; the zero Time is the start of the year 1 in UTC.
abbrev pub zero_signature : Signature
zero_signature = record { name = []; email = []; unix = negsuc 62135596799; offset = pos 0 }

abbrev pub zero_commit : Commit
zero_commit = record {
  tree = zero_id;
  parent = [];
  author = zero_signature;
  committer = zero_signature;
  message = [];
}

abbrev pub zero_tag : Tag
zero_tag = record {
  object = zero_id;
  type_code = type_unknown;
  tag = [];
  tagger = zero_signature;
  message = [];
}

-- A new object of the type: its zero value.
unfoldable pub new_object : ℕ → Result Marshal.Error Object
new_object t =
    if t == type_commit
    then ok (commit zero_commit)
    else (if t == type_tree
        then ok (tree [])
        else (if t == type_blob
            then ok (blob [])
            else (if t == type_tag then ok (tag zero_tag) else err (type_error t))))

pub data IdError : Type 0 where
  -- an error of hex.DecodeString, and errBadIDLen
  bad_hex bad_id_len : IdError

-- The value of a hexadecimal digit in either case; 16 for another byte.
unfoldable pub hex_value : ℕ → ℕ
hex_value c =
    if leb b'0' c && leb c b'9'
    then c - b'0'
    else (if leb b'a' c && leb c b'f'
        then c - b'a' + 10
        else (if leb b'A' c && leb c b'F' then c - b'A' + 10 else 16))

-- hex.DecodeString
unfoldable pub hex_decode : Bytes → Result IdError Bytes
hex_decode [] = ok []
hex_decode (a ∷ []) = err bad_hex
hex_decode (a ∷ b ∷ s) =
    let rest = do more ← hex_decode s; ok ((hex_value a * 16 + hex_value b) ∷ more)
    in if ltb (hex_value a) 16 && ltb (hex_value b) 16 then rest else err bad_hex

unfoldable pub decode_id : Bytes → Result IdError ObjectId
decode_id s = do b ← hex_decode s; if length b == id_size then ok b else err bad_id_len
