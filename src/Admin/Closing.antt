-- ===== src/Admin/Closing.antt =====
-- Organizations closed in bulk and one by one.
use egypt_supply_chain_visib.Base.{
  ℕ, ◌==◌, ◌≡◌, refl, sym, ap, ◌∙◌, inl, inr, ◌||◌, Bool-cases, if◌then◌else◌, Option, none, some,
  List, [], ◌∷◌, Result, ok, arith, not_found, or_throw, or_throw-eq-ok, ◌>>=◌, bind-eq-ok,
  ok-injective,
}
use egypt_supply_chain_visib.Domain.{User, Organization}
use egypt_supply_chain_visib.Store.{amend}
use egypt_supply_chain_visib.Store.Amends.{amend_twice, amend_same, amend_nothing}
use egypt_supply_chain_visib.Store.Saves.{save-cases}
use egypt_supply_chain_visib.Store.Database.{Database, State}
use egypt_supply_chain_visib.Admin.{Console, find_account, find_organization}
use egypt_supply_chain_visib.Admin.Organizations.{
  closed_organization, deactivated, close_organization, deactivate_organization,
}
use egypt_supply_chain_visib.Admin.Bulk.{listed, bulk_close_organizations}

-- One identifier and then the others.
amend_more :
    {R : Type 0} (key : R → ℕ) (f : R → R) (id : ℕ) (ids : List ℕ) (row : Option R)
    → ((x : R) → key (f x) ≡ key x)
    → ((x : R) → f (f x) ≡ f x)
    → amend (λ x. listed ids (key x)) f (amend (λ x. listed (id ∷ []) (key x)) f row)
      ≡ amend (λ x. listed (id ∷ ids) (key x)) f row
amend_more key f id ids row blind once =
    amend_twice (λ x. listed (id ∷ []) (key x)) (λ x. listed ids (key x)) f row
      (λ x. ap (listed ids) (blind x)) once
    ∙ amend_same (λ x. listed (id ∷ []) (key x) || listed ids (key x))
        (λ x. listed (id ∷ ids) (key x)) f row (λ x. ground arith)

same_users :
    (id : ℕ) (row : Option User)
    → amend (λ user. user.organization_id == id) deactivated row
      ≡ amend (λ user. listed (id ∷ []) user.organization_id) deactivated row
same_users id none = refl
same_users id (some user) = ground arith

same_organizations :
    (id k : ℕ) (row : Option Organization) (org : Organization)
    → ((o : Organization) → row ≡ some o → o.organization_id ≡ k)
    → (id ≡ k → row ≡ some org)
    → (if id == k then some (closed_organization org) else row)
      ≡ amend (λ o. listed (id ∷ []) o.organization_id) closed_organization row
same_organizations id k none org own here = elim (Bool-cases (id == k)) [
  | inl same ↦ absurd (ground (arith, here (ground arith)))
  | inr other ↦ ground arith
]
same_organizations id k (some o) org own here = elim (Bool-cases (id == k)) [
  | inl same ↦ let one : o ≡ org = one_org o org (here (ground arith)) in ground (arith, own o refl)
  | inr other ↦ ground (arith, own o refl)
]
  where
    one_org : (a b : Organization) → some a ≡ some b → a ≡ b
    one_org a b e = cc

module _ (db : Database) (admin_id : ℕ) where
  -- deactivateOrganization of each in turn.
  unfoldable pub close_each : Console db → List ℕ → Result (Console db)
  unfolding deactivate_organization
  close_each c [] = ok c
  close_each c (id ∷ ids) =
      deactivate_organization db c admin_id id >>= (λ next. close_each next ids)

  -- A row holds its own key.
  abbrev pub IsKept : Console db → Type 0
  IsKept c =
      (id : ℕ) (org : Organization)
      → find_organization db c id ≡ some org
      → org.organization_id ≡ id

  abbrev AgreesUsers : Console db → Console db → List ℕ → Type 0
  AgreesUsers c after ids =
      (k : ℕ)
      → find_account db after k
        ≡ amend (λ user. listed ids user.organization_id) deactivated (find_account db c k)

  abbrev AgreesOrganizations : Console db → Console db → List ℕ → Type 0
  AgreesOrganizations c after ids =
      (k : ℕ)
      → find_organization db after k
        ≡ amend (λ org. listed ids org.organization_id) closed_organization
            (find_organization db c k)

  closed-users :
      (c : Console db) (id : ℕ) (after : Console db)
      → deactivate_organization db c admin_id id ≡ ok after
      → (org : Organization) × (find_organization db c id ≡ some org)
        × (close_organization db c admin_id id org ≡ after.state)
  unfolding deactivate_organization
  closed-users c id after h =
      let (org, got, e) = bind-eq-ok (or_throw (find_organization db c id) not_found) _ h in
      (
        org,
        or_throw-eq-ok (find_organization db c id) not_found got,
        ap (λ (x : Console db). x.state) (ok-injective e),
      )

  one_user :
      (c : Console db) (id : ℕ) (after : Console db)
      → deactivate_organization db c admin_id id ≡ ok after
      → AgreesUsers c after (id ∷ [])
  unfolding close_organization
  one_user c id after h k =
      let (org, there, e) = closed-users c id after h in
      ap (λ (s : State db). db.users_table.find s.users k) (sym e)
      ∙ db.users_table.find-update_where c.state.users (λ user. user.organization_id == id)
          deactivated k
      ∙ same_users id (find_account db c k)

  one_organization :
      (c : Console db) (id : ℕ) (after : Console db)
      → IsKept c
      → deactivate_organization db c admin_id id ≡ ok after
      → AgreesOrganizations c after (id ∷ [])
  unfolding close_organization
  one_organization c id after kept h k =
      let (org, there, e) = closed-users c id after h in
      ap (λ (s : State db). db.organizations_table.find s.organizations k) (sym e)
      ∙ db.organizations_table.find-save c.state.organizations id k (closed_organization org)
      ∙ same_organizations id k (find_organization db c k) org (kept k)
          (λ at. ap (find_organization db c) (sym at) ∙ there)

  one-IsKept :
      (c : Console db) (id : ℕ) (after : Console db)
      → IsKept c
      → deactivate_organization db c admin_id id ≡ ok after
      → IsKept after
  unfolding close_organization
  one-IsKept c id after kept h k org found =
      let (old, there, e) = closed-users c id after h in
      let before = ap (λ (s : State db). db.organizations_table.find s.organizations k) e ∙ found in
      elim (save-cases db.organizations_table c.state.organizations id k (closed_organization old)
        org before) [
          | inl (at, same) ↦
              ap (λ (x : Organization). x.organization_id) (sym same) ∙ kept id old there ∙ at
          | inr (other, still) ↦ kept k org still
        ]

  each-Agrees :
      (c : Console db) (ids : List ℕ) (after : Console db)
      → IsKept c
      → close_each c ids ≡ ok after
      → AgreesUsers c after ids × AgreesOrganizations c after ids
  unfolding close_each
  each-Agrees c [] after kept h =
      let e = ok-injective h in
      (
        (λ k.
            ap (λ (x : Console db). find_account db x k) (sym e)
            ∙ amend_nothing deactivated (find_account db c k)),
        (λ k.
            ap (λ (x : Console db). find_organization db x k) (sym e)
            ∙ amend_nothing closed_organization (find_organization db c k)),
      )
  each-Agrees c (id ∷ ids) after kept h =
      let (next, first, rest) = bind-eq-ok (deactivate_organization db c admin_id id) _ h in
      let (users, orgs) = each-Agrees next ids after (one-IsKept c id next kept first) rest in
      (
        (λ k.
            users k
            ∙ ap (amend (λ (user : User). listed ids user.organization_id) deactivated)
                (one_user c id next first k)
            ∙ amend_more (λ (user : User). user.organization_id) deactivated id ids
                (find_account db c k) (λ x. refl) (λ x. refl)),
        (λ k.
            orgs k
            ∙ ap
                (amend (λ (org : Organization). listed ids org.organization_id) closed_organization)
                (one_organization c id next kept first k)
            ∙ amend_more (λ (org : Organization). org.organization_id) closed_organization id ids
                (find_organization db c k) (λ x. refl) (λ x. refl)),
      )

  -- Where every organization's row holds its own identifier, closing organizations in bulk leaves
  -- every account and every organization as closing them one after the other does, if that succeeds.
  pub bulk-close_each :
      (c : Console db) (ids : List ℕ) (after : Console db)
      → IsKept c
      → close_each c ids ≡ ok after
      → ((k : ℕ)
          → db.users_table.find (bulk_close_organizations db c admin_id ids).users k
            ≡ find_account db after k)
        × ((k : ℕ)
            → db.organizations_table.find
                (bulk_close_organizations db c admin_id ids).organizations
                k
              ≡ find_organization db after k)
  unfolding bulk_close_organizations
  bulk-close_each c ids after kept h =
      let (users, orgs) = each-Agrees c ids after kept h in
      (
        (λ k.
            db.users_table.find-update_where c.state.users (λ user. listed ids user.organization_id)
              deactivated k
            ∙ sym (users k)),
        (λ k.
            db.organizations_table.find-update_where c.state.organizations
              (λ org. listed ids org.organization_id) closed_organization k
            ∙ sym (orgs k)),
      )
