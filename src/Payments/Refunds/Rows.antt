-- ===== src/Payments/Refunds/Rows.antt =====
-- Looking a refund up after an update of the rows: src/modules/payments/refunds.repository.ts.
use mathlib.Core.Path.{subst}
use mathlib.Core.Logic.{◌⊎◌}
use mealdirectbackend.Common.{
  ◌≡◌, ◌≢◌, refl, List, [], ◌∷◌, some, String, str_eq, eq_iff, Bool-cases, inl, inr, arith, sym,
  ◌∙◌,
}
use mealdirectbackend.Payments.Refunds.{Refund, find_row, update_row}

module _ (f : Refund → Refund) (keeps : (r : Refund) → (f r).id ≡ r.id) where
  pub find_row-update_self :
      (id : String) (rows : List Refund) {r : Refund}
      → find_row id rows ≡ some r
      → find_row id (update_row id f rows) ≡ some (f r)
  unfolding find_row update_row
  find_row-update_self id [] h = cc h
  find_row-update_self id (x ∷ rows) h = elim (Bool-cases (str_eq x.id id)) [
    | inl e ↦ ground (arith, keeps x, eq_iff x.id id, eq_iff (f x).id id)
    | inr e ↦ rw (e, e) (find_row-update_self id rows (rw e at h))
  ]

  pub find_row-update_other :
      (id key : String) (rows : List Refund)
      → key ≢ id
      → find_row key (update_row id f rows) ≡ find_row key rows
  unfolding find_row update_row
  find_row-update_other id key [] h = refl
  find_row-update_other id key (x ∷ rows) h = elim (Bool-cases (str_eq x.id id)) [
    | inl e ↦ ground (
      arith,
      keeps x,
      eq_iff x.id id,
      eq_iff x.id key,
      eq_iff (f x).id key,
      find_row-update_other id key rows h,
    )
    | inr e ↦ ground (arith, find_row-update_other id key rows h)
  ]

  -- The row with a key is updated if it has the id, and is the same otherwise.
  pub update_row_cases :
      (id key : String) (rows : List Refund) (r : Refund)
      → find_row key rows ≡ some r
      → ((key ≡ id) × (find_row key (update_row id f rows) ≡ some (f r)))
        ⊎ (find_row key (update_row id f rows) ≡ some r)
  update_row_cases id key rows r h = elim (Bool-cases (str_eq key id)) [
    | inl e ↦
        let same = (eq_iff key id).0 e in
        inl (
          same,
          subst (λ k. find_row k (update_row id f rows) ≡ some (f r)) (sym same)
              (find_row-update_self id rows (subst (λ k. find_row k rows ≡ some r) same h)),
        )
    | inr e ↦ inr (find_row-update_other id key rows (λ same. cc (e, (eq_iff key id).1 same)) ∙ h)
  ]
