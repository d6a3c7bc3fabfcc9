-- ===== src/Store/Mem/Invariant.antt =====
-- What holds of the store in memory between two calls: the tables are in the order of their keys,
-- a row stands under its own key, and each reference names a row that exists.
pub mod Deletes
pub mod Inserts
pub mod Rows
pub mod Links
pub mod Keys
pub mod Unique
pub mod Reach
use lakefs_auth.Common.{ℕ, ◌≤◌, ◌≡◌, Bool, true, Option, none, some}
use lakefs_auth.Std.Order.{Text, text_ord, pair_ord}
use lakefs_auth.Std.BTreeMap.{get, contains_key, IsSorted}
use lakefs_auth.Store.Types.{
  UserRecord, GroupRecord, PolicyRecord, CredentialRecord, ExternalPrincipalRecord,
}
use lakefs_auth.Store.Mem.Inner.{Inner}
use mathlib.Core.Option

module _ {T : Type 0} where
  pub record IsOrdered (s : Inner T) : Type 0 where
    pub users : IsSorted s.users
    pub groups : IsSorted s.groups
    pub policies : IsSorted s.policies
    pub group_members : IsSorted s.group_members
    pub user_policies : IsSorted s.user_policies
    pub group_policies : IsSorted s.group_policies
    pub credentials : IsSorted s.credentials
    pub external_principals : IsSorted s.external_principals
    pub claimed_token_ids : IsSorted s.claimed_token_ids

  pub record IsKeyed (s : Inner T) : Type 0 where
    pub users : (k : Text) (u : UserRecord T) → get k s.users ≡ some u → u.username ≡ k
    pub groups : (k : Text) (g : GroupRecord T) → get k s.groups ≡ some g → g.id ≡ k
    pub policies : (k : Text) (p : PolicyRecord T) → get k s.policies ≡ some p → p.name ≡ k
    pub credentials :
        (k : Text) (c : CredentialRecord T) → get k s.credentials ≡ some c → c.access_key_id ≡ k
    pub external_principals :
        (k : Text) (p : ExternalPrincipalRecord) → get k s.external_principals ≡ some p → p.id ≡ k

  -- The id of a user, by its name.
  abbrev pub id_of : Inner T → Text → Option ℕ
  id_of s username = Option.map (λ u. u.user_id) (get username s.users)

  pub record IsReferenced (s : Inner T) : Type 0 where
    pub group_members :
        (g u : Text)
        → contains_key (g, u) s.group_members ≡ true
        → (contains_key g s.groups ≡ true) × (contains_key u s.users ≡ true)
    pub user_policies :
        (u p : Text)
        → contains_key (u, p) s.user_policies ≡ true
        → (contains_key u s.users ≡ true) × (contains_key p s.policies ≡ true)
    pub group_policies :
        (g p : Text)
        → contains_key (g, p) s.group_policies ≡ true
        → (contains_key g s.groups ≡ true) × (contains_key p s.policies ≡ true)
    pub credentials :
        (k : Text) (c : CredentialRecord T)
        → get k s.credentials ≡ some c
        → id_of s c.username ≡ some c.user_id
    pub external_principals :
        (k : Text) (p : ExternalPrincipalRecord)
        → get k s.external_principals ≡ some p
        → contains_key p.username s.users ≡ true

  -- A call that leaves the five tables alone leaves their keys alone.
  pub same_tables-IsKeyed :
      (s t : Inner T)
      → (t.users ≡ s.users)
        × (t.groups ≡ s.groups)
        × (t.policies ≡ s.policies)
        × (t.credentials ≡ s.credentials)
        × (t.external_principals ≡ s.external_principals)
      → IsKeyed s
      → IsKeyed t
  same_tables-IsKeyed s t (eu, eg, ep, ec, ex) r = record {
    users = λ k u h. r.users k u (rw (← eu) h);
    groups = λ k g h. r.groups k g (rw (← eg) h);
    policies = λ k p h. r.policies k p (rw (← ep) h);
    credentials = λ k c h. r.credentials k c (rw (← ec) h);
    external_principals = λ k p h. r.external_principals k p (rw (← ex) h);
  }

  -- Everything, and what holds of the user ids and of the columns that are unique.
  pub record IsUnique (s : Inner T) : Type 0 where
    pub assigned :
        (k : Text) (u : UserRecord T) → get k s.users ≡ some u → u.user_id ≤ s.next_user_id
    pub user_ids :
        (j k : Text) (u v : UserRecord T)
        → get j s.users ≡ some u
        → get k s.users ≡ some v
        → u.user_id ≡ v.user_id
        → j ≡ k
    pub emails :
        (j k : Text) (u v : UserRecord T) (e : Text)
        → get j s.users ≡ some u
        → get k s.users ≡ some v
        → u.email ≡ some e
        → v.email ≡ some e
        → j ≡ k
    pub external_ids :
        (j k : Text) (u v : UserRecord T) (e : Text)
        → get j s.users ≡ some u
        → get k s.users ≡ some v
        → u.external_id ≡ some e
        → v.external_id ≡ some e
        → j ≡ k

  pub record IsValid (s : Inner T) : Type 0 where
    pub ordered : IsOrdered s
    pub keyed : IsKeyed s
    pub referenced : IsReferenced s
    pub unique : IsUnique s
