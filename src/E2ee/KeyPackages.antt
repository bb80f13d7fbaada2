-- ===== src/E2ee/KeyPackages.antt =====
-- `claimKeyPackage` of backend/src/modules/e2ee/e2ee.service.ts.
use mathlib.Core.List.{head?}
use messageries.Base.{
  All, All-filter, All-update_where, List, Option-cases, [], arith, false, filter-All, inl, inr,
  is_none, refl, some, subst, sym, true, update_where, ℕ, ◌==◌, ◌∙◌, ◌∷◌, ◌≡◌, ◌≢◌,
}
use messageries.Base.Sorting.{sort_asc-All}
use messageries.Base.Text.{Text}
use messageries.Db.{Db, Env, ok, transaction}
use messageries.E2ee.{Claimed, claim_in_tx, claim_key_package, is_available, next_package}
use messageries.Entities.Mls.{MlsKeyPackage}

-- The test is met by an available package that is the first one of the selection.
head-All :
    (P : MlsKeyPackage → Type 0) (ks : List MlsKeyPackage) (k : MlsKeyPackage)
    → All P ks
    → head? ks ≡ some k
    → P k
head-All P [] k h e = absurd (ground arith)
head-All P (x ∷ xs) k h e = subst P (ground arith) h.0

module _ (env : Env) where
  -- The package that a claim takes meets what all rows meet, and is available.
  next_package-All :
      (P : MlsKeyPackage → Type 0) (user : ℕ) (suite : Text) (s : Db) (k : MlsKeyPackage)
      → All P s.key_packages
      → next_package env user suite s ≡ some k
      → P k × (is_available env.now user suite k ≡ true)
  unfolding next_package
  next_package-All P user suite s k h e =
      let av = is_available env.now user suite in
      (
        head-All P _ k (sort_asc-All (λ k. k.created_at) P _ (All-filter P av s.key_packages h)) e,
        head-All (λ k. av k ≡ true) _ k
            (sort_asc-All (λ k. k.created_at) _ _ (filter-All av s.key_packages)) e,
      )

  -- A claim returns the oldest package that is available, and marks every row of that identifier.
  pub claim_inv :
      (target requester : ℕ) (suite : Text) (s s' : Db) (c : Claimed)
      → claim_key_package env target requester suite s ≡ (ok c, s')
      → (k : MlsKeyPackage) × (next_package env target suite s ≡ some k)
        × (c.key_package_id ≡ k.id)
        × (c.key_package ≡ k.key_package)
        × (s'.key_packages
            ≡ update_where
                (λ x. x.id == k.id)
                (λ x. record x { consumed_at = some env.now; consumed_by = some requester })
                s.key_packages)
  unfolding claim_key_package claim_in_tx transaction
  claim_inv target requester suite s s' c h =
      elim (Option-cases (next_package env target suite s)) [
        | inl empty ↦ absurd (ground arith)
        | inr (k, row) ↦ (k, row, ground arith, ground arith, ground arith)
      ]

-- A row that is not of the identifier, or is consumed.
abbrev pub Spent : ℕ → MlsKeyPackage → Type 0
Spent id k = k.id ≡ id → is_none k.consumed_at ≡ false

update-Spent :
    (env : Env) (id requester : ℕ) (ks : List MlsKeyPackage)
    → All (Spent id) (
        update_where
          (λ x. x.id == id)
          (λ x. record x { consumed_at = some env.now; consumed_by = some requester })
          ks)
update-Spent env id requester ks =
    All-update_where (Spent id) (λ x. x.id == id) _ ks (λ x hit e. refl) (λ x miss e. ground arith)

-- A package is handed out once: whatever user, suite and requester the next claim is for, and
-- whenever it comes, it returns another package.
pub claim_once :
    (env1 env2 : Env) (target1 requester1 target2 requester2 : ℕ) (suite1 suite2 : Text)
    (s s1 s2 : Db) (c1 c2 : Claimed)
    → claim_key_package env1 target1 requester1 suite1 s ≡ (ok c1, s1)
    → claim_key_package env2 target2 requester2 suite2 s1 ≡ (ok c2, s2)
    → c1.key_package_id ≢ c2.key_package_id
claim_once env1 env2 target1 requester1 target2 requester2 suite1 suite2 s s1 s2 c1 c2 h1 h2 same =
    let (k1, row1, id1, bytes1, marked) = claim_inv env1 target1 requester1 suite1 s s1 c1 h1 in
    let (k2, row2, id2, bytes2, rows2) = claim_inv env2 target2 requester2 suite2 s1 s2 c2 h2 in
    let all_spent : All (Spent k1.id) s1.key_packages =
      subst (All (Spent k1.id)) (sym marked) (update-Spent env1 k1.id requester1 s.key_packages) in
    let (spent, fresh) = next_package-All env2 (Spent k1.id) target2 suite2 s1 k2 all_spent row2 in
    let consumed = spent (sym id2 ∙ sym same ∙ id1) in ground arith
