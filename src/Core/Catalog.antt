-- ===== src/Core/Catalog.antt =====
-- crates/lakefs-auth-core/src/catalog.rs: the actions of lakeFS, and the resources that each is checked
-- against.
pub mod Actions
use lakefs_auth.Common.{Option, none, some, List, [], ◌∷◌, map}
use lakefs_auth.Std.Order.{Text}
use lakefs_auth.Std.Str.{codes, split_once}

-- `All` is `every` here.
pub data ResourceKind : Type 0 where
  every repository object branch tag namespace user group policy external_principal
        catalog_namespace catalog_table catalog_view :
      ResourceKind

abbrev pub resource_kinds : List ResourceKind
resource_kinds =
    every ∷ repository ∷ object ∷ branch ∷ tag ∷ namespace ∷ user ∷ group ∷ policy
    ∷ external_principal ∷ catalog_namespace ∷ catalog_table ∷ catalog_view ∷ []

pub record KindSpec : Type 0 where
  pub id : Text
  pub template : Text
  pub fields : List Text

abbrev pub spec_of : Text → Text → List Text → KindSpec
spec_of id template fields = record { id = id; template = template; fields = fields }

-- `ResourceKind::spec`
abbrev pub spec : ResourceKind → KindSpec
spec every = spec_of (codes "all") (codes "*") ([])
spec repository =
    spec_of (codes "repository") (codes "arn:lakefs:fs:::repository/{repository}")
      (codes "repository" ∷ [])
spec object =
    spec_of (codes "object") (codes "arn:lakefs:fs:::repository/{repository}/object/{path}")
      (codes "repository" ∷ codes "path" ∷ [])
spec branch =
    spec_of (codes "branch") (codes "arn:lakefs:fs:::repository/{repository}/branch/{branch}")
      (codes "repository" ∷ codes "branch" ∷ [])
spec tag =
    spec_of (codes "tag") (codes "arn:lakefs:fs:::repository/{repository}/tag/{tag}")
      (codes "repository" ∷ codes "tag" ∷ [])
spec namespace =
    spec_of (codes "namespace") (codes "arn:lakefs:fs:::namespace/{namespace}")
      (codes "namespace" ∷ [])
spec user = spec_of (codes "user") (codes "arn:lakefs:auth:::user/{user}") (codes "user" ∷ [])
spec group = spec_of (codes "group") (codes "arn:lakefs:auth:::group/{group}") (codes "group" ∷ [])
spec policy =
    spec_of (codes "policy") (codes "arn:lakefs:auth:::policy/{policy}") (codes "policy" ∷ [])
spec external_principal =
    spec_of (codes "external_principal") (codes "arn:lakefs:auth:::externalPrincipal/{principal}")
      (codes "principal" ∷ [])
spec catalog_namespace =
    spec_of (codes "catalog_namespace")
      (codes "arn:lakefs:catalog:::namespace/{repository}/{namespace}")
      (codes "repository" ∷ codes "namespace" ∷ [])
spec catalog_table =
    spec_of (codes "catalog_table")
      (codes "arn:lakefs:catalog:::table/{repository}/{namespace}/{table}")
      (codes "repository" ∷ codes "namespace" ∷ codes "table" ∷ [])
spec catalog_view =
    spec_of (codes "catalog_view")
      (codes "arn:lakefs:catalog:::view/{repository}/{namespace}/{view}")
      (codes "repository" ∷ codes "namespace" ∷ codes "view" ∷ [])

abbrev pub template : ResourceKind → Text
template kind = (spec kind).template

abbrev pub fields : ResourceKind → List Text
fields kind = (spec kind).fields

abbrev pub id : ResourceKind → Text
id kind = (spec kind).id

pub record ActionSpec : Type 0 where
  pub name : Text
  pub resources : List ResourceKind

-- `self.name.split_once(':').map_or(self.name, |(service, _)| service)`
abbrev pub front_or : Text → Option (Text × Text) → Text
front_or name none = name
front_or name (some (service, rest)) = service

unfoldable pub service : ActionSpec → Text
unfolding split_once
service action = front_or action.name (split_once b':' action.name)
