-- ===== src/Rbac/Visible.antt =====
-- The lookup that the handlers share: a row by its id, for an actor who is a super administrator or
-- whom the row's own test admits.
use rust_template.Base.{
  ℕ, ◌≡◌, refl, ◌⊎◌, inl, inr, ◌↔◌, Bool, true, false, ◌||◌, none, some, if◌then◌else◌, arith,
  Bool-cases,
}
use rust_template.Api.{ApiError, ok_or, database_error, ok_or-eq-ok, ok_or-eq-err}
use rust_template.Db.Interface.{Database}
use rust_template.Db.Handler.{Runs-pure, Runs-raise, query, lift, pure, raise, ◌>>=◌}
use rust_template.Db.Rules.{ReadsIf, Runs-if, Runs-reads, Runs-check, Runs-bind-query_if}
use rust_template.Db.Rows.{Slot, row}
use rust_template.Entities.Access.{User}
use rust_template.World.{World}
use rust_template.Rbac.Roles.{is_super_admin, model_error}
use rust_template.Rbac.Grants.{IsSuperAdmin}
use rust_template.Rbac.Check.{is_super_admin_lem}

module _ {db : Database} {R : Type 0} (w : World db) (s : Slot db (World db) R) (actor : User)
    (test : R → Bool) where
  abbrev pub CanSee : R → Type 0
  CanSee r = IsSuperAdmin w actor.id ⊎ (test r ≡ true)

  -- what a lookup that fails says
  abbrev pub LookupFails : Type 0 → ApiError → ApiError → ℕ → ApiError → Type 0
  LookupFails F missing hidden id e =
      (F × ((e ≡ database_error) ⊎ (e ≡ model_error)))
      ⊎ ((e ≡ missing) × (row s id w ≡ none))
      ⊎ ((e ≡ hidden) × ((r : R) × (row s id w ≡ some r) × (¬ CanSee r)))

  pub find_visible_lem :
      {F : Type 0} (missing hidden : ApiError) (id : ℕ)
      → ReadsIf F
          (query (row s id) >>= λ found. lift (ok_or found missing) >>= λ r.
            is_super_admin actor.id >>= λ super. if super || test r then pure r else raise hidden)
          w
          (λ r. (row s id w ≡ some r) × CanSee r)
          (LookupFails F missing hidden id)
  find_visible_lem missing hidden id =
      Runs-bind-query_if (row s id) _
        (Runs-check _ _
          (λ r found.
            let stored = ok_or-eq-ok _ _ found in
            Runs-reads _ (is_super_admin_lem w actor.id)
              (λ b super.
                Runs-if _ _ _ (λ e. Runs-pure r (refl, (stored, seen b r super e (Bool-cases b))))
                  (λ e.
                    Runs-raise hidden (refl, inr (inr (refl, (r, stored, unseen b r super e))))))
              (λ e h. (refl, inl (h.0, inr h.1))))
          (λ e h.
            let (none_there, same) = ok_or-eq-err _ _ h in (refl, inr (inl (same, none_there)))))
        (λ k. (refl, inl (k, inl refl)))
    where
      seen :
          (b : Bool) (r : R)
          → (b ≡ true) ↔ IsSuperAdmin w actor.id
          → (b || test r) ≡ true
          → (b ≡ true) ⊎ (b ≡ false)
          → CanSee r
      seen b r super e (inl t) = inl (super.0 t)
      seen b r super e (inr f) = inr (ground arith)

      unseen :
          (b : Bool) (r : R)
          → (b ≡ true) ↔ IsSuperAdmin w actor.id
          → (b || test r) ≡ false
          → ¬ CanSee r
      unseen b r super e (inl s) = let t = super.1 s in ground arith
      unseen b r super e (inr t) = ground arith
