-- ===== src/Protocol/Advertise/Sent.antt =====
-- What a client reads of the advertisement.
use go_git_scm.Base.{ℕ, ◌≤◌, ◌≡◌, refl, List, [], ◌∷◌, ◌++◌, ok, length, All, true, false, codes}
use go_git_scm.Object.{Bytes, ObjectId, zero_id}
use go_git_scm.Object.Print.{id_string}
use go_git_scm.Repository.Mem.{Repo}
use go_git_scm.Pktline.{max_payload_len}
use go_git_scm.Pktline.RoundTrip.{sent, Reads, Reads-sent}
use go_git_scm.Protocol.Lines.{send_lines, send_lines-sent}
use go_git_scm.Protocol.Advertise.{advertised, or_capabilities, first_lines, advertise_refs}

same_bytes :
    (ls : List Bytes) (b : Bytes)
    → All (λ s. length s ≤ max_payload_len) ls
    → sent ls ≡ ok b
    → send_lines ls ≡ b
same_bytes ls b h e = let f = send_lines-sent ls h in cc

first_lines_lem :
    (fuel : ℕ) (caps : Bytes) (repo : Repo) (refs : List (Bytes × ObjectId))
    → (before : Bytes) × (more : List Bytes) × (first_lines fuel caps repo (or_capabilities refs)
        ≡ (before ++ (0 ∷ caps) ++ codes "\n") ∷ more)
unfolding first_lines or_capabilities
first_lines_lem fuel caps repo [] =
    (id_string zero_id ++ codes " " ++ codes "capabilities^{}", _, refl)
first_lines_lem fuel caps repo ((name, id) ∷ refs) = (id_string id ++ codes " " ++ name, _, refl)

-- If each line is within bounds, a client reads the lines in their order, up to the flush-pkt, and the
-- first of them, which is always there, carries the capabilities behind a zero byte.
pub Reads-advertise_refs :
    (fuel : ℕ) (caps : Bytes) (repo : Repo) (rest : Bytes)
    → All (λ s. length s ≤ max_payload_len) (first_lines fuel caps repo (advertised repo))
    → Reads
        (record { stream = advertise_refs fuel caps repo ++ rest; at_eof = false })
        (first_lines fuel caps repo (advertised repo))
        (record { stream = rest; at_eof = true })
      × ((before : Bytes) × (more : List Bytes) × (first_lines fuel caps repo (advertised repo)
            ≡ (before ++ (0 ∷ caps) ++ codes "\n") ∷ more))
unfolding advertise_refs advertised
Reads-advertise_refs fuel caps repo rest h =
    let ls = first_lines fuel caps repo (advertised repo) in
    let (bytes, sends, reads) = Reads-sent ls rest false h in
    (rw (same_bytes ls bytes h sends) reads, first_lines_lem fuel caps repo _)
