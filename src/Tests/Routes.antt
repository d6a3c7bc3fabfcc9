-- ===== src/Tests/Routes.antt =====
-- The routes of the API, at concrete values.
use lakefs_auth.Common.{◌≡◌, refl, Bool, true, ◌&&◌, List, [], ◌∷◌, ◌++◌, all, any}
use lakefs_auth.Std.Order.{Text, text_ord, ◌==◌, cmp_text}
use lakefs_auth.Std.Str.{codes}
use lakefs_auth.Handlers.Routes.{
  Method, Handler, Route, route_table, protected_router, public_router,
}

abbrev method_name : Method → Text
method_name Method.get = codes "GET"
method_name Method.post = codes "POST"
method_name Method.put = codes "PUT"
method_name Method.delete = codes "DELETE"

abbrev pairs : Text → List (Method × Handler) → List (Text × Text)
pairs path [] = []
pairs path ((method, handler) ∷ methods) = (method_name method, path) ∷ pairs path methods

abbrev served : List Route → List (Text × Text)
served [] = []
served ((path, methods) ∷ routes) = pairs path methods ++ served routes

abbrev has_pair : List (Text × Text) → Text × Text → Bool
has_pair list p = any (λ q. q.0 == p.0 && q.1 == p.1) list

table_is_served : all (has_pair (served (protected_router ++ public_router))) route_table ≡ true
unfolding cmp_text
table_is_served = refl

served_is_in_table : all (has_pair route_table) (served (protected_router ++ public_router)) ≡ true
unfolding cmp_text
served_is_in_table = refl
