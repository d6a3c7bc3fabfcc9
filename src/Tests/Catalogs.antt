-- ===== src/Tests/Catalogs.antt =====
-- The action catalog and the cleanup, at concrete values.
use lakefs_auth.Common.{
  ℕ, ◌+◌, ◌≡◌, refl, Bool, true, false, not, ◌&&◌, Option, none, some, List, [], ◌∷◌, ◌++◌, map,
  all, any, is_empty, length, ltb, if◌then◌else◌,
}
use lakefs_auth.Common
use lakefs_auth.Std.Order.{Text, text_ord, ◌==◌, cmp_text}
use lakefs_auth.Std.Str.{codes}
use lakefs_auth.Std.Sort.{has}
use lakefs_auth.Std.Result.{is_ok}
use lakefs_auth.Core.Validate.{services, validate_action}
use lakefs_auth.Core.Catalog.{resource_kinds, template, fields, id, service}
use lakefs_auth.Core.Catalog.Actions.{actions}
use lakefs_auth.Store.Mem.Inner.{Inner, default}
use lakefs_auth.Cleanup.{cleanup_token_ids}
use lakefs_auth.Std.BTreeMap.{retain}

every_action_is_valid : all (λ a. is_ok (validate_action a.name)) actions ≡ true
unfolding validate_action cmp_text
every_action_is_valid = refl

every_service_is_known : all (λ a. has services (service a)) actions ≡ true
unfolding cmp_text service
every_service_is_known = refl

every_service_has_an_action : all (λ s. any (λ a. service a == s) actions) services ≡ true
unfolding cmp_text service
every_service_has_an_action = refl

abbrev distinct : List Text → Bool
distinct [] = true
distinct (t ∷ ts) = not (has ts t) && distinct ts

names_are_distinct : distinct (map (λ a. a.name) actions) ≡ true
unfolding cmp_text
names_are_distinct = refl

ids_are_distinct : distinct (map id resource_kinds) ≡ true
unfolding cmp_text
ids_are_distinct = refl

each_action_has_a_kind : all (λ a. not (is_empty a.resources)) actions ≡ true
each_action_has_a_kind = refl

-- The names between braces.
abbrev in_braces : Option Text → Text → List Text
in_braces open_part [] = []
in_braces none (c ∷ s) = if Common.◌==◌ c b'{' then in_braces (some []) s else in_braces none s
in_braces (some part) (c ∷ s) =
    if Common.◌==◌ c b'}' then part ∷ in_braces none s else in_braces (some (part ++ (c ∷ []))) s

abbrev same_list : List Text → List Text → Bool
same_list [] [] = true
same_list (s ∷ ss) (t ∷ ts) = s == t && same_list ss ts
same_list _ _ = false

templates_name_their_fields :
    all (λ kind. same_list (in_braces none (template kind)) (fields kind)) resource_kinds ≡ true
unfolding cmp_text
templates_name_their_fields = refl

abbrev two_claims : Inner ℕ
two_claims = record (default ℕ) { claimed_token_ids = (codes "a", 10) ∷ (codes "b", 20) ∷ [] }

expired_ids_go :
    (cleanup_token_ids (λ a b. ltb b a) 60 (5 ∷ 15 ∷ []) two_claims).claimed_token_ids
    ≡ (codes "b", 20) ∷ []
unfolding cleanup_token_ids retain
expired_ids_go = refl
