-- ===== src/RequestList.antt =====
-- core/internal/requestlist/request-list.go: at most one Request for each client. The map is a list;
-- `All` returns its elements in the list's order, where the source leaves the order open.
use minbft.Base.{List, [], ◌∷◌, ◌==◌, if◌then◌else◌}
use minbft.Messages.{Request}

unfoldable pub add : Request → List Request → List Request
add q [] = q ∷ []
add q (x ∷ l) = if x.client_id == q.client_id then q ∷ l else x ∷ add q l

unfoldable pub remove : Request → List Request → List Request
remove q [] = []
remove q (x ∷ l) =
    if x.client_id == q.client_id
    then (if x.sequence == q.sequence then l else x ∷ l)
    else x ∷ remove q l
