-- ===== src/Authen/Tests.antt =====
-- messages/authen.go: two Commits for one proposal, and the bytes of other messages.
use minbft.Base.{ℕ, ◌≡◌, refl, List, [], ◌∷◌, ◌++◌, arith, length}
use minbft.Base.Result.{ok, panic}
use minbft.Messages.{Request, Message, hello, request, certified, CertifiedMessage, prepare, commit}
use minbft.Usig.{big_endian}
use minbft.Authen.{request_tag, commit_tag, prepare_tag, authen_bytes}
use minbft.Authen.Content.{content}
use minbft.Authen.Injective.{authen_bytes-injective}

-- In place of a digest, the length.
abbrev digest : List ℕ → List ℕ
digest l = length l ∷ []

abbrev query : Request
query = record { client_id = 3; sequence = 258; operation = 9 ∷ 9 ∷ []; signature = 1 ∷ [] }

abbrev proposal : List ℕ → CertifiedMessage
proposal cert = prepare 0 0 query (record { counter = 7; cert = cert })

abbrev vote : ℕ → List ℕ → Message
vote id cert = certified (commit id (proposal cert) (record { counter = 1; cert = [] }))

abbrev query_bytes : List ℕ
query_bytes = 0 ∷ 0 ∷ 0 ∷ 0 ∷ 0 ∷ 0 ∷ 1 ∷ 2 ∷ 2 ∷ []

abbrev vote_bytes : List ℕ
vote_bytes =
    commit_tag
    ++ (0 ∷ 0 ∷ 0 ∷ 0 ∷ [])
    ++ prepare_tag
    ++ (0 ∷ 0 ∷ 0 ∷ 0 ∷ 0 ∷ 0 ∷ 0 ∷ 0 ∷ 0 ∷ 0 ∷ 0 ∷ 3 ∷ [])
    ++ query_bytes
    ++ (0 ∷ 0 ∷ 0 ∷ 0 ∷ 0 ∷ 0 ∷ 0 ∷ 7 ∷ [])

request_test : authen_bytes digest (request query) ≡ ok (request_tag ++ query_bytes)
unfolding authen_bytes big_endian
request_test = refl

hello_test : authen_bytes digest (hello 0) ≡ panic
unfolding authen_bytes big_endian
hello_test = refl

vote_test : authen_bytes digest (vote 1 []) ≡ ok vote_bytes
unfolding authen_bytes big_endian
vote_test = refl

other_vote_test : authen_bytes digest (vote 2 (5 ∷ [])) ≡ ok vote_bytes
unfolding authen_bytes big_endian
other_vote_test = refl

authen_bytes-injective_example : content digest (vote 1 []) ≡ content digest (vote 2 (5 ∷ []))
authen_bytes-injective_example =
    authen_bytes-injective digest (vote 1 []) (vote 2 (5 ∷ [])) vote_bytes
      (omega arith, omega arith, (omega arith, omega arith, omega arith))
      (omega arith, omega arith, (omega arith, omega arith, omega arith)) vote_test other_vote_test
