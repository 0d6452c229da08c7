-- ===== src/Organizations/Owners/Core.antt =====
-- Statements about grants and users leave roles, memberships and organizations alone.
use team_flow.Prelude.{ℕ, ◌≡◌, refl, subst, ◌∙◌, String, List, [], ◌∷◌, arith}
use team_flow.Database.Tables.{Db}
use team_flow.Database.Roles.{get_permission_by_key, add_role_permission, set_role_permissions}
use team_flow.Exec.{
  World, Action, Result, ok, err, continue, settle, statement, or_fail, ◌>>=◌, for_each,
}
use team_flow.Organizations.Roles.{grant, set_permissions}

pub record SameCore (d' d : Db) : Type 0 where
  pub same_roles : d'.roles ≡ d.roles
  pub same_memberships : d'.memberships ≡ d.memberships
  pub same_organizations : d'.organizations ≡ d.organizations

unfoldable pub KeepsCore : {A : Type 0} → Action A → Type 0
KeepsCore m = (w : World) → SameCore (m w).1.db w.db

module _ {A : Type 0} where
  KeepsCore-settle :
      (r : Result (A × Db)) (w : World)
      → ((a : A) (d : Db) → r ≡ ok (a, d) → SameCore d w.db)
      → SameCore (settle r w).1.db w.db
  KeepsCore-settle (ok (a, d)) w h = h a d refl
  KeepsCore-settle (err e) w h = record {
    same_roles = refl;
    same_memberships = refl;
    same_organizations = refl;
  }

module _ {A B : Type 0} where
  continue-Core :
      (r : Result A) (f : A → Action B) (w : World)
      → ((a : A) → KeepsCore (f a))
      → SameCore (continue r f w).1.db w.db
  unfolding KeepsCore
  continue-Core (ok a) f w h = h a w
  continue-Core (err e) f w h = record {
    same_roles = refl;
    same_memberships = refl;
    same_organizations = refl;
  }

  pub KeepsCore-bind :
      (m : Action A) (f : A → Action B)
      → KeepsCore m
      → ((a : A) → KeepsCore (f a))
      → KeepsCore (m >>= f)
  unfolding KeepsCore ◌>>=◌
  KeepsCore-bind m f h k w =
      let s = continue-Core (m w).0 f (m w).1 k in
      let t = h w in
      record {
        same_roles = s.same_roles ∙ t.same_roles;
        same_memberships = s.same_memberships ∙ t.same_memberships;
        same_organizations = s.same_organizations ∙ t.same_organizations;
      }

pub grant-Core : (role_id : ℕ) (key : String) → KeepsCore (grant role_id key)
unfolding KeepsCore grant statement ◌>>=◌ or_fail get_permission_by_key add_role_permission
grant-Core role_id key w = record {
  same_roles = ground arith;
  same_memberships = ground arith;
  same_organizations = ground arith;
}

clear-Core : (role_id : ℕ) → KeepsCore (statement (set_role_permissions role_id))
unfolding KeepsCore statement ◌>>=◌ set_role_permissions
clear-Core role_id w = record {
  same_roles = ground arith;
  same_memberships = ground arith;
  same_organizations = ground arith;
}

pub for_each-Core :
    {A : Type 0} (f : A → Action (Unit {0})) (xs : List A)
    → ((a : A) → KeepsCore (f a))
    → KeepsCore (for_each f xs)
unfolding for_each KeepsCore
for_each-Core f [] h =
    λ w. record { same_roles = refl; same_memberships = refl; same_organizations = refl }
for_each-Core f (x ∷ xs) h =
    KeepsCore-bind (f x) (λ _. for_each f xs) (h x) (λ _. for_each-Core f xs h)

pub set_permissions-Core :
    (role_id : ℕ) (keys : List String) → KeepsCore (set_permissions role_id keys)
unfolding set_permissions
set_permissions-Core role_id keys =
    KeepsCore-bind (statement (set_role_permissions role_id)) (λ _. for_each (grant role_id) keys)
      (clear-Core role_id) (λ _. for_each-Core (grant role_id) keys (grant-Core role_id))

-- The same of a run that succeeds.
pub Core-Returns :
    {A : Type 0} (m : Action A) (w : World) (a : A) (w' : World)
    → KeepsCore m
    → m w ≡ (ok a, w')
    → SameCore w'.db w.db
unfolding KeepsCore
Core-Returns {A} m w a w' h e = subst (λ (p : Result A × World). SameCore p.1.db w.db) e (h w)
