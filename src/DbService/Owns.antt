-- ===== src/DbService/Owns.antt =====
-- The transactions on the heap and the two tables that lead to them: no entry of a table dangles,
-- and no transaction is in both tables.
use grit.Common.{
  eq-cases, eq_true, eq_false, some-injective, none-ne-some, Table, insert, erase, ℕ, ◌+◌, ◌<◌, ◌≡◌,
  refl, sym, ap, subst, ◌∙◌, ◌≢◌, ◌⊎◌, inl, inr, some, arith,
}
use grit.DbService.{Transaction, transaction}

pub record Owns (trans dbtm : Table ℕ) (heap : Table Transaction) (next : ℕ) : Type 0 where
  pub unchecked :
      (t p : ℕ) → trans t ≡ some p → (tran : Transaction) × (heap p ≡ some tran) × (tran.txid ≡ t)
  pub checked :
      (t p : ℕ) → dbtm t ≡ some p → (tran : Transaction) × (heap p ≡ some tran) × (tran.txid ≡ t)
  pub apart : (t p : ℕ) → trans t ≡ some p → dbtm t ≢ some p
  pub fresh : (p : ℕ) (tran : Transaction) → heap p ≡ some tran → p < next

-- A write to a transaction that keeps its id.
kept :
    (heap : Table Transaction) (p : ℕ) (old new : Transaction)
    → heap p ≡ some old
    → new.txid ≡ old.txid
    → (t q : ℕ) → (tran : Transaction) × (heap q ≡ some tran) × (tran.txid ≡ t)
    → (tran : Transaction) × (insert heap p new q ≡ some tran) × (tran.txid ≡ t)
kept heap p old new e same t q (tran, e', own) = elim (eq-cases p q) [
  | inl here ↦ (
    new,
    rw (eq_true here) refl,
    same ∙ ap (λ (o : Transaction). o.txid) (some-injective (sym e ∙ rw (← here) at e')) ∙ own,
  )
  | inr away ↦ (tran, rw (eq_false away) e', own)
]

module _ {trans dbtm : Table ℕ} {heap : Table Transaction} {next : ℕ} where
  pub Owns-store :
      (p : ℕ) (old new : Transaction)
      → Owns trans dbtm heap next
      → heap p ≡ some old
      → new.txid ≡ old.txid
      → Owns trans dbtm (insert heap p new) next
  Owns-store p old new o e same = record {
    unchecked = λ t q h. kept heap p old new e same t q (o.unchecked t q h);
    checked = λ t q h. kept heap p old new e same t q (o.checked t q h);
    apart = o.apart;
    fresh = λ q tran h. elim (eq-cases p q) [
      | inl here ↦ rw (← here) (o.fresh p old e)
      | inr away ↦ o.fresh q tran (rw (eq_false away) at h)
    ];
  }

  later :
      (t u q : ℕ)
      → Owns trans dbtm heap next
      → (tran : Transaction) × (heap q ≡ some tran) × (tran.txid ≡ u)
      → (tran : Transaction) × (insert heap next (transaction t) q ≡ some tran) × (tran.txid ≡ u)
  later t u q o (tran, e, own) =
      let away : next ≢ q = omega (arith, o.fresh q tran e) in (tran, rw (eq_false away) e, own)

  pub Owns-new :
      (t : ℕ)
      → Owns trans dbtm heap next
      → Owns (insert trans t next) dbtm (insert heap next (transaction t)) (next + 1)
  unfolding transaction
  Owns-new t o = record {
    unchecked = λ u q h. elim (eq-cases t u) [
      | inl here ↦
          let e : next ≡ q = some-injective (rw (eq_true here) at h) in
          (transaction t, rw (eq_true e) refl, here)
      | inr away ↦ later t u q o (o.unchecked u q (rw (eq_false away) at h))
    ];
    checked = λ u q h. later t u q o (o.checked u q h);
    apart = λ u q h k. elim (eq-cases t u) [
      | inl here ↦
          let e : next ≡ q = some-injective (rw (eq_true here) at h) in
          let (tran, e', own) = o.checked u q k in absurd (omega (arith, o.fresh q tran e'))
      | inr away ↦ o.apart u q (rw (eq_false away) at h) k
    ];
    fresh = λ q tran h. elim (eq-cases next q) [
      | inl here ↦ omega arith
      | inr away ↦ omega (arith, o.fresh q tran (rw (eq_false away) at h))
    ];
  }

  -- The check is passed.
  pub Owns-pass :
      (p : ℕ) (tran : Transaction)
      → Owns trans dbtm heap next
      → heap p ≡ some tran
      → Owns (erase trans tran.txid) (insert dbtm tran.txid p) heap next
  Owns-pass p tran o e = record {
    unchecked = λ u q h. elim (eq-cases tran.txid u) [
      | inl here ↦ absurd (none-ne-some (rw (eq_true here) at h))
      | inr away ↦ o.unchecked u q (rw (eq_false away) at h)
    ];
    checked = λ u q h. elim (eq-cases tran.txid u) [
      | inl here ↦
          let same : p ≡ q = some-injective (rw (eq_true here) at h) in (tran, rw (← same) e, here)
      | inr away ↦ o.checked u q (rw (eq_false away) at h)
    ];
    apart = λ u q h. elim (eq-cases tran.txid u) [
      | inl here ↦ absurd (none-ne-some (rw (eq_true here) at h))
      | inr away ↦ rw (eq_false away) (o.apart u q (rw (eq_false away) at h))
    ];
    fresh = o.fresh;
  }

  left :
      (t p u q : ℕ)
      → dbtm t ≡ some p
      → Owns trans dbtm heap next
      → u ≢ t ⊎ (trans u ≡ some q)
      → (tran : Transaction) × (heap q ≡ some tran) × (tran.txid ≡ u)
      → (tran : Transaction) × (erase heap p q ≡ some tran) × (tran.txid ≡ u)
  left t p u q e o why (tran, e', own) =
      let (old, e'', owned) = o.checked t p e in
      elim (eq-cases p q) [
        | inr away ↦ (tran, rw (eq_false away) e', own)
        | inl here ↦
            let same_tran : old ≡ tran =
              some-injective (sym e'' ∙ subst (λ x. heap x ≡ some tran) (sym here) e') in
            let same : t ≡ u = sym owned ∙ ap (λ (x : Transaction). x.txid) same_tran ∙ own in
            elim why [
              | inl other ↦ absurd (other (sym same))
              | inr held ↦
                  absurd (o.apart u q held (subst (λ x. dbtm x ≡ some q) same (e ∙ ap some here)))
            ]
      ]

  -- The transaction is deleted.
  pub Owns-delete :
      (t p : ℕ)
      → Owns trans dbtm heap next
      → dbtm t ≡ some p
      → Owns trans (erase dbtm t) (erase heap p) next
  Owns-delete t p o e = record {
    unchecked = λ u q h. left t p u q e o (inr h) (o.unchecked u q h);
    checked = λ u q h. elim (eq-cases t u) [
      | inl here ↦ absurd (none-ne-some (rw (eq_true here) at h))
      | inr away ↦
          left t p u q e o (inl (λ k. away (sym k))) (o.checked u q (rw (eq_false away) at h))
    ];
    apart = λ u q h. elim (eq-cases t u) [
      | inl here ↦ rw (eq_true here) (λ k. none-ne-some k)
      | inr away ↦ rw (eq_false away) (o.apart u q h)
    ];
    fresh = λ q tran h. elim (eq-cases p q) [
      | inl here ↦ absurd (none-ne-some (rw (eq_true here) at h))
      | inr away ↦ o.fresh q tran (rw (eq_false away) at h)
    ];
  }

  pub Owns-erase : (t : ℕ) → Owns trans dbtm heap next → Owns trans (erase dbtm t) heap next
  Owns-erase t o = record {
    unchecked = o.unchecked;
    checked = λ u q h. elim (eq-cases t u) [
      | inl here ↦ absurd (none-ne-some (rw (eq_true here) at h))
      | inr away ↦ o.checked u q (rw (eq_false away) at h)
    ];
    apart = λ u q h. elim (eq-cases t u) [
      | inl here ↦ rw (eq_true here) (λ k. none-ne-some k)
      | inr away ↦ rw (eq_false away) (o.apart u q h)
    ];
    fresh = o.fresh;
  }
