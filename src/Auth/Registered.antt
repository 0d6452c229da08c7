-- ===== src/Auth/Registered.antt =====
-- internal/auth/service.go: Register keeps the invariant of organizations, whether it succeeds or fails.
use Prim.Native.String.{◌++◌ as append}
use team_flow.Prelude.{ℕ, zero, suc, ◌≤◌, refl, String, List, [], ◌∷◌}
use team_flow.Httpx.Errors.{wrap}
use team_flow.Database.Tables.{Db}
use team_flow.Database.Organizations.{organization_slug_exists}
use team_flow.Exec.{
  World, Action, Result, ◌>>=◌, pure, lift, or_fail, statement, transaction, new_id,
}
use team_flow.Exec.Rules.{Reads, bind-Reads}
use team_flow.Exec.Grows.{
  Grows, Grows-bind, Grows-or_fail, Grows-statement, Grows-pure, Grows-new_id, Grows-lift,
  grows_rules,
}
use team_flow.Exec.Keeps.{
  Keeps, Keeps-bind, Keeps-pure, Keeps-or_fail, Keeps-Reads, Keeps-transaction,
}
use team_flow.Slug.{auth_slugify}
use team_flow.Organizations.Create.{other_roles}
use team_flow.Organizations.Owners.Invariant.{Inv, Inv-next, Inv-others}
use team_flow.Organizations.Owners.Create.{settled}
use team_flow.Organizations.Owners.Found.{
  pure-Reads, slug_exists-Reads, new_id-Reads, chosen-Reads, chosen-Grows,
}
use team_flow.Auth.Tokens.{AuthConfig, RegisterInput, RequestMeta}
use team_flow.Auth.Sessions.{start_session}
use team_flow.Auth.Frame.{start_session-Keeps}
use team_flow.Auth.Register.{
  slug_rounds, unique_slug, register_tx, register, seed_other_roles, seed_role_permissions,
}
use team_flow.Auth.Registration.{register_tx-Inv, seed_role_permissions-Grows}

abbrev SettledInv : ℕ → Db → Type 0
SettledInv next d = Inv settled next d

later : (n n' : ℕ) (d : Db) → SettledInv n d → n ≤ n' → SettledInv n' d
later n n' d inv h = Inv-next settled n d inv n' h

Reads-Keeps : {A : Type 0} (m : Action A) → Reads m → Grows m → Keeps SettledInv m
Reads-Keeps m reads grows = Keeps-Reads SettledInv m later reads grows

start-Keeps :
    (cfg : AuthConfig) (user_id : ℕ) (meta : RequestMeta)
    → Keeps SettledInv (start_session cfg user_id meta)
start-Keeps cfg user_id meta =
    start_session-Keeps SettledInv later
      (λ n d ts inv.
        Inv-others settled n d inv (record d { refresh_tokens = ts }) refl refl (λ k. refl))
      cfg user_id meta

seed_other_roles-Grows :
    (org_id : ℕ) (rest : List (String × String)) → Grows (seed_other_roles org_id rest)
unfolding seed_other_roles
seed_other_roles-Grows org_id [] = Grows-pure tt
seed_other_roles-Grows org_id ((name, desc) ∷ rest) =
    Grows-bind _ _ (search grows_rules depth 5) λ role.
      Grows-bind _ _
        (Grows-or_fail wrap (seed_role_permissions role.id name)
          (seed_role_permissions-Grows role.id name))
        λ x. seed_other_roles-Grows org_id rest

module _ (fold lower : String → String) (random_suffix : ℕ → String) where
  rounds-Reads :
      (n : ℕ) (base candidate : String)
      → Reads (slug_rounds fold lower random_suffix n base candidate)
  unfolding slug_rounds
  rounds-Reads zero base candidate = pure-Reads candidate
  rounds-Reads (suc n) base candidate =
      bind-Reads (or_fail wrap (statement (organization_slug_exists fold candidate))) _
        (slug_exists-Reads fold candidate)
        λ taken.
          chosen-Reads taken (pure candidate)
            (new_id >>= λ seed.
              slug_rounds fold lower random_suffix n base
                (append base (append "-" (random_suffix seed))))
            (pure-Reads candidate) (bind-Reads new_id _ new_id-Reads λ seed. rounds-Reads n base _)

  rounds-Grows :
      (n : ℕ) (base candidate : String)
      → Grows (slug_rounds fold lower random_suffix n base candidate)
  unfolding slug_rounds
  rounds-Grows zero base candidate = Grows-pure candidate
  rounds-Grows (suc n) base candidate =
      Grows-bind (or_fail wrap (statement (organization_slug_exists fold candidate))) _
        (Grows-or_fail wrap (statement (organization_slug_exists fold candidate))
          (Grows-statement (organization_slug_exists fold candidate)))
        λ taken.
          chosen-Grows taken (pure candidate)
            (new_id >>= λ seed.
              slug_rounds fold lower random_suffix n base
                (append base (append "-" (random_suffix seed))))
            (Grows-pure candidate) (Grows-bind new_id _ Grows-new_id λ seed. rounds-Grows n base _)

  register_tx-Grows :
      (input : RegisterInput) (hash slug : String)
      → Grows (register_tx fold lower random_suffix input hash slug)
  unfolding register_tx
  register_tx-Grows input hash slug = Grows-bind _ _ (search grows_rules depth 5) λ user.
      Grows-bind _ _ (search grows_rules depth 5) λ org.
        Grows-bind _ _ (search grows_rules depth 5) λ role.
          Grows-bind _ _
            (Grows-or_fail wrap (seed_role_permissions role.id "Owner")
              (seed_role_permissions-Grows role.id "Owner"))
            λ x.
              Grows-bind (seed_other_roles org.id other_roles) _
                (seed_other_roles-Grows org.id other_roles) λ y. search grows_rules depth 9

  register-all :
      (cfg : AuthConfig) (hash_password : ℕ → String → Result String) (input : RegisterInput)
      (meta : RequestMeta)
      → Keeps SettledInv (register fold lower random_suffix cfg hash_password input meta)
  unfolding register unique_slug
  register-all cfg hash_password input meta =
      let base = auth_slugify lower input.organization_name in
      Keeps-bind SettledInv new_id _ (Reads-Keeps new_id new_id-Reads Grows-new_id) λ salt.
        Keeps-bind SettledInv _ _
          (Keeps-or_fail SettledInv wrap _
            (Reads-Keeps (lift (hash_password salt input.password)) (λ w. refl) (Grows-lift _)))
          λ hash.
            Keeps-bind SettledInv (unique_slug fold lower random_suffix input.organization_name) _
              (Reads-Keeps (unique_slug fold lower random_suffix input.organization_name)
                (rounds-Reads 5 base base) (rounds-Grows 5 base base))
              λ slug.
                Keeps-bind SettledInv
                  (transaction (register_tx fold lower random_suffix input hash slug)) _
                  (Keeps-transaction SettledInv
                    (register_tx fold lower random_suffix input hash slug) later
                    (register_tx-Grows input hash slug)
                    λ w user u inv r.
                      (register_tx-Inv fold lower random_suffix input hash slug w.db w user u refl
                        inv r).0)
                  λ user.
                    Keeps-bind SettledInv (start_session cfg user.id meta) _
                      (start-Keeps cfg user.id meta) λ tokens. Keeps-pure SettledInv _

  pub register-Keeps :
      (cfg : AuthConfig) (hash_password : ℕ → String → Result String) (input : RegisterInput)
      (meta : RequestMeta) (w : World)
      → Inv settled w.next_id w.db
      → Inv settled
          (register fold lower random_suffix cfg hash_password input meta w).1.next_id
          (register fold lower random_suffix cfg hash_password input meta w).1.db
  register-Keeps cfg hash_password input meta = (register-all cfg hash_password input meta).at
