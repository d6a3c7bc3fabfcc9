-- ===== src/Client/Ensure/Creations.antt =====
-- The creates among the requests of a login.
use lakefs_auth.Common.{◌≡◌, refl, ◌⊎◌, inl, inr, none, String, List, [], ◌∷◌, arith, Option-cases}
use lakefs_auth.Std.Order.{Text}
use lakefs_auth.Core.Model.{User, UserCreation}
use lakefs_auth.Client.Ensure.{
  EnsureUserSpec, find_user, email_holder, delete_user, add_group_membership, roll_back_create,
  join_groups, with_groups, after_conflict, create_user_with_groups, creation_of,
}
use lakefs_auth.Client.Ensure.Calls.{Request, Log, Server, logged}
use lakefs_auth.Client.Ensure.Calls

-- What the server was asked to create, the last one first.
abbrev pub creations : Log → List UserCreation
creations [] = []
creations (Calls.create_user creation ∷ log) = creation ∷ creations log
creations (_ ∷ log) = creations log

module _ (server : Server) where
  creations-add_group_membership :
      (group username : Text) (log : Log)
      → creations (add_group_membership (logged server) group username log).1 ≡ creations log
  unfolding add_group_membership
  creations-add_group_membership group username log = ground arith

  creations-roll_back_create :
      (username : Text) (log : Log)
      → creations (roll_back_create (logged server) username log) ≡ creations log
  unfolding roll_back_create delete_user
  creations-roll_back_create username log = ground arith

  creations-join_groups :
      (username : Text) (groups : List Text) (log : Log)
      → creations (join_groups (logged server) username groups log).1 ≡ creations log
  unfolding join_groups
  creations-join_groups username [] log = refl
  creations-join_groups username (group ∷ groups) log =
      let asked = add_group_membership (logged server) group username log in
      ground (
        arith,
        creations-add_group_membership group username log,
        creations-join_groups username groups asked.1,
        creations-roll_back_create username asked.1,
      )

  pub creations-find_user :
      (filter : String) (value : Text) (log : Log)
      → creations (find_user (logged server) filter value log).1 ≡ creations log
  unfolding find_user
  creations-find_user filter value log = ground arith

  creations-email_holder :
      (spec : EnsureUserSpec) (log : Log)
      → creations (email_holder (logged server) spec log).1 ≡ creations log
  unfolding email_holder
  creations-email_holder spec log = elim (Option-cases spec.email) [
    | inl none_given ↦ ground (arith, none_given)
    | inr (email, given) ↦ ground (arith, given, creations-find_user "email" email log)
  ]

  creations-with_groups :
      (spec : EnsureUserSpec) (user : User) (log : Log)
      → creations (with_groups (logged server) spec user log).1 ≡ creations log
  creations-with_groups spec user log =
      ground (arith, creations-join_groups user.username spec.groups log)

  creations-after_conflict :
      (spec : EnsureUserSpec) (log : Log)
      → (creations (after_conflict (logged server) spec log).1 ≡ creations log)
        ⊎ (creations (after_conflict (logged server) spec log).1
            ≡ creation_of spec none ∷ creations log)
  unfolding after_conflict
  creations-after_conflict spec log = grind (
    arith,
    creations-find_user "external_id" spec.external_id log,
    λ (l : Log). creations-email_holder spec l,
    λ (user : User) (l : Log). creations-with_groups spec user l,
  )

  -- A create asks for the user once, or again without its email.
  pub creations-create_user_with_groups :
      (spec : EnsureUserSpec) (log : Log)
      → (creations (create_user_with_groups (logged server) spec log).1
          ≡ creation_of spec spec.email ∷ creations log)
        ⊎ (creations (create_user_with_groups (logged server) spec log).1
            ≡ creation_of spec none ∷ creation_of spec spec.email ∷ creations log)
  unfolding create_user_with_groups
  creations-create_user_with_groups spec log = grind (
    arith,
    λ (l : Log). creations-after_conflict spec l,
    λ (user : User) (l : Log). creations-with_groups spec user l,
  )
