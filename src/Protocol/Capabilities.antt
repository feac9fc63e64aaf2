-- ===== src/Protocol/Capabilities.antt =====
-- protocol/capabilities.go: CapList as a list of its entries, each keyword once, in the order of an iteration.
use go_git_scm.Base.{
  Bool, true, false, not, ◌&&◌, ◌||◌, List, [], ◌∷◌, ◌++◌, none, some, ◌≡◌, codes, if◌then◌else◌,
  bytes_eq, bytes_eq_iff, arith,
}
use go_git_scm.Base.Map.{lookup, insert, lookup-insert}
use go_git_scm.Object.{Bytes}

abbrev pub CapList : Type 0
CapList = List (Bytes × Bool)

abbrev pub capabilities : CapList
capabilities =
    (codes "delete-refs", true)
    ∷ (codes "multi_ack_detailed", true)
    ∷ (codes "no-done", true)
    ∷ (codes "ofs-delta", true)
    ∷ (codes "report-status", true)
    ∷ []

-- `d[cap]`
unfoldable pub has : CapList → Bytes → Bool
has d cap = elim (lookup cap d) [ none ↦ false | some ok ↦ ok ]

-- The loop of sub, with the listing `e` so far.
unfoldable pub sub_loop : CapList → CapList → CapList → CapList
sub_loop [] d e = e
sub_loop ((cap, ok) ∷ c) d e =
    let added = sub_loop c d (insert cap true e) in
    let rest = sub_loop c d e in if ok && not (has d cap) then added else rest

unfoldable pub sub : CapList → CapList → CapList
sub c d = sub_loop c d []

-- The elements of `capList[:i]`: an empty string for a keyword that is not set.
unfoldable pub cap_words : CapList → List Bytes
cap_words [] = []
cap_words ((cap, ok) ∷ c) = (if ok then cap else []) ∷ cap_words c

-- strings.Join(words, " ")
unfoldable pub join : List Bytes → Bytes
join [] = []
join (w ∷ []) = w
join (w ∷ v ∷ ws) = w ++ codes " " ++ join (v ∷ ws)

unfoldable pub cap_string : CapList → Bytes
cap_string c = join (cap_words c)

-- Some entry of the listing has the keyword and is set.
unfoldable pub is_set : Bytes → CapList → Bool
is_set cap [] = false
is_set cap ((k, ok) ∷ c) = (ok && bytes_eq k cap) || is_set cap c

has-sub_loop :
    (c d e : CapList) (cap : Bytes)
    → has (sub_loop c d e) cap ≡ has e cap || (is_set cap c && not (has d cap))
unfolding sub_loop is_set has
has-sub_loop [] d e cap = ground arith
has-sub_loop ((k, false) ∷ c) d e cap = has-sub_loop c d e cap
has-sub_loop ((k, true) ∷ c) d e cap = ground (
  arith,
  has-sub_loop c d e cap,
  has-sub_loop c d (insert k true e) cap,
  lookup-insert cap k true e,
  bytes_eq_iff k cap,
)

-- The difference of two listings has exactly the keywords that are set in the first and not in the second.
pub has-sub : (c d : CapList) (cap : Bytes) → has (sub c d) cap ≡ is_set cap c && not (has d cap)
unfolding sub has is_set lookup
has-sub c d cap = has-sub_loop c d [] cap
