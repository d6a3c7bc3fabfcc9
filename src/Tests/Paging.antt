-- ===== src/Tests/Paging.antt =====
-- Pages and the walk over them, at concrete values.
use lakefs_auth.Common.{◌≡◌, refl, some, List, [], ◌∷◌, arith, ℕ}
use lakefs_auth.Std.Order.{Text, cmp_text}
use lakefs_auth.Std.Str.{codes, starts_with}
use lakefs_auth.Std.BTreeMap.{BTreeMap}
use lakefs_auth.Std.Result.{Result, ok}
use lakefs_auth.Core.Pagination.{page_sorted, ListResponse}
use lakefs_auth.Core.Pagination.Pages.{page_sorted-page_of, query_of, page_of, selected}
use lakefs_auth.Client.{list_all, ClientError}
use lakefs_auth.Client.Walk.{list_all_ends}
use lakefs_auth.Client.Paged.{list_all-serve_rows, serve_rows}

abbrev three : BTreeMap Text ℕ
three = (codes "a", 1) ∷ (codes "b", 2) ∷ (codes "ba", 3) ∷ []

list_all-serve_rows_example : list_all (serve_rows (codes "b") 1 three) ≡ some (ok (2 ∷ 3 ∷ []))
unfolding cmp_text starts_with
list_all-serve_rows_example =
    list_all-serve_rows (codes "b") 1 three ((refl, (refl, tt)), ((refl, tt), (tt, tt)))
      (refl, (refl, (refl, tt))) (omega arith) (omega arith)

page_sorted-page_of_example :
    page_sorted three (query_of [] (codes "a") 1) ≡ page_of 1 (selected [] (codes "a") three)
page_sorted-page_of_example = page_sorted-page_of [] (codes "a") 1 three

-- A server that answers the same page for ever.
abbrev stuck_server : ℕ → Text → Result (ListResponse ℕ) ClientError
stuck_server page after = serve_rows [] 1 three page []

list_all_ends_example : (r : Result (List ℕ) ClientError) × (list_all stuck_server ≡ some r)
list_all_ends_example = list_all_ends stuck_server
