-- ===== src/Rbac/Links.antt =====
-- The two queries by which the code goes from a user's roles to what they are linked to: the rows of
-- a link table whose role is among the roles, and the ids that these rows name.
use mathlib.Core.List.{Memᴰ}
use rust_template.Base.{ℕ, ◌≡◌, refl, sym, true, List, map, is_empty}
use rust_template.Db.Interface.{Database}
use rust_template.Db.Rows.{Slot, select, all_rows, mem-select_to, mem-select_from}
use rust_template.Entities.Access.{Role}
use rust_template.World.{World}
use rust_template.Rbac.Ids.{unique_ids, is_in}
use rust_template.Rbac.Grants.{HasRole, AreRolesOf, is_in_ids_to, is_in_ids_from, is_in_empty}

abbrev pub ids_of : List Role → List ℕ
ids_of roles = unique_ids (map (λ (r : Role). r.id) roles)

module _ {db : Database} {L : Type 0} (on_links : Slot db (World db) L) (role_of target_of : L → ℕ)
    (w : World db) (user_id : ℕ) where
  -- a row that links an enabled role of the user to the target
  pub record LinkedTo (target : ℕ) : Type 0 where
    pub role : Role
    pub has : HasRole w user_id role
    pub link : L
    pub link_listed : Memᴰ link (all_rows on_links w)
    pub of_role : role_of link ≡ role.id
    pub of_target : target_of link ≡ target

  module _ (roles : List Role) where
    abbrev links_of : List L
    links_of = select on_links (λ l. is_in (ids_of roles) (role_of l)) w

    abbrev pub targets_of : List ℕ
    targets_of = unique_ids (map target_of links_of)

    module _ (are : AreRolesOf w user_id roles) where
      link_to : (l : L) → Memᴰ l links_of → LinkedTo (target_of l)
      link_to l m =
          let (listed, c) = mem-select_to on_links _ w m in
          let (r, k, e) = is_in_ids_to (λ (x : Role). x.id) roles (role_of l) c in
          record {
            role = r;
            has = (are r).0 k;
            link = l;
            link_listed = listed;
            of_role = sym e;
            of_target = refl;
          }

      link_from : {target : ℕ} (h : LinkedTo target) → Memᴰ h.link links_of
      link_from h = mem-select_from on_links _ w h.link_listed (
          is_in_ids_from (λ (x : Role). x.id) roles (role_of h.link) ((are h.role).1 h.has)
            (sym h.of_role))

      pub target_to : (target : ℕ) → is_in targets_of target ≡ true → LinkedTo target
      target_to target h =
          let (l, m, e) = is_in_ids_to target_of links_of target h in rw e at (link_to l m)

      pub target_from : (target : ℕ) → LinkedTo target → is_in targets_of target ≡ true
      target_from target h = is_in_ids_from target_of links_of target (link_from h) h.of_target

      -- without a role or without a link nothing is linked
      pub no_targets : (target : ℕ) → is_empty targets_of ≡ true → ¬ LinkedTo target
      no_targets target e h = is_in_empty targets_of target e (target_from target h)

      pub no_roles : (target : ℕ) → is_empty (ids_of roles) ≡ true → ¬ LinkedTo target
      no_roles target e h =
          is_in_empty (ids_of roles) h.role.id e
            (is_in_ids_from (λ (x : Role). x.id) roles h.role.id ((are h.role).1 h.has) refl)
