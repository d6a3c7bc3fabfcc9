-- ===== src/Tests/Pages.antt =====
-- The requests of the policy builder page, at concrete values.
use lakefs_auth.Common.{ℕ, ◌+◌, ◌≡◌, refl, ◌⊎◌, none, some, List, [], ◌∷◌}
use lakefs_auth.Std.Order.{Text, cmp_text}
use lakefs_auth.Std.Str.{codes, ascii_lower}
use lakefs_auth.Std.Result.{Result, ok, err}
use lakefs_auth.Core.Model.{Effect}
use lakefs_auth.LakeFs.{Web}
use lakefs_auth.Builder.{BuilderError, BuilderState, HeaderMap, PolicyRequest, create_policy}
use lakefs_auth.Builder.Guarded.{IsAllowed, create_policy-IsGuarded}
use lakefs_auth.Core.Validate.{validate_action}

-- A server that counts its requests and creates what it is asked for.
abbrev counting : Web ℕ
counting = record {
  send = λ request n. (ok (record { status = 201; body = codes "p" }), n + 1);
  read_id = λ body. ok body;
  read_user = λ body. ok body;
  read_names = λ body. err (codes "not a list");
  read_message = λ body. none;
  status_text = λ status. [];
  utf8_percent_encode = λ set text. text;
}

abbrev no_list : Text → Result (List Text) Text
no_list text = err (codes "not a list")

abbrev state : BuilderState
state = record { lakefs = some (record { endpoint = codes "http://lakefs" }) }

abbrev headers : HeaderMap
headers = record {
  cookie = some (codes "a=1; internal_auth_session= abc");
  sec_fetch_site = none;
  origin = some (codes "https://Page:8080");
  host = some (codes "page:8080");
}

abbrev request : PolicyRequest
request = record {
  name = codes "p";
  statement =
      record {
        effect = Effect.allow;
        resource = codes "*";
        action = codes "fs:*" ∷ [];
        condition = none;
      }
      ∷ [];
}

create_policy-IsGuarded_example :
    ((e : BuilderError) × (create_policy counting some state no_list headers request 0
        ≡ (err e, 0)))
    ⊎ IsAllowed counting some state no_list headers request 0
        (create_policy counting some state no_list headers request 0).1
create_policy-IsGuarded_example =
    create_policy-IsGuarded counting some state no_list headers request 0

-- The request is passed on, and one from another site is not.
passed_on : create_policy counting some state no_list headers request 0 ≡ (ok (codes "p"), 1)
unfolding create_policy cmp_text ascii_lower validate_action
passed_on = refl

refused :
    create_policy counting some state no_list
      (record headers { sec_fetch_site = some (codes "cross-site") })
      request
      0
    ≡ (err BuilderError.cross_origin, 0)
unfolding create_policy cmp_text ascii_lower
refused = refl
