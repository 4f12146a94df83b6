-- ===== src/Singleton/Lifetime.antt =====
-- The object of a singleton, before and after it is destroyed.
use grit.Common.{
  if◌then◌else◌, replicate, Returns, no_entries, insert, erase, ℕ, zero, suc, ◌≡◌, refl, ap, ◌∙◌,
  Bool, true, Option, none, some, List, [], ◌∷◌, fault, dangling,
}
use grit.Singleton.{Singleton, singleton, init_instance, get_instance, destroy_instance}

module _ {T : Type 0} where
  -- Calls of `getInstance`, and the pointers that they give.
  unfoldable pub get_all : T → ℕ → Singleton T → List (Option ℕ) × Singleton T
  unfolding get_instance
  get_all fresh zero s = ([], s)
  get_all fresh (suc n) s =
      let (p, s') = get_instance fresh s in let (ps, s'') = get_all fresh n s' in (p ∷ ps, s'')

  get_all-again :
      (fresh : T) (n : ℕ) (s : Singleton T)
      → s.instance_flag ≡ true
      → get_all fresh n s ≡ (replicate n s.instance_at, s)
  unfolding get_all
  get_all-again fresh zero s on = refl
  get_all-again fresh (suc n) s on =
      let again : get_instance fresh s ≡ (s.instance_at, s) =
        ap
          (λ (b : Bool).
            let s' = if b then s else record (init_instance fresh s) { instance_flag = true } in
            (s'.instance_at, s'))
          on in
      ap (λ (r : Option ℕ × Singleton T). let (ps, s'') = get_all fresh n r.1 in (r.0 ∷ ps, s''))
        again
      ∙ rw (get_all-again fresh n s on) refl

  -- However often it is asked for, the object is made once, by the first call, and each call gives the
  -- pointer to it. When it has been destroyed, each call still gives that pointer, to an object that is
  -- not there any more; and to destroy it again uses it after it has been deleted.
  pub get_all-destroy_instance :
      (fresh : T) (before later : ℕ)
      → let calls = get_all fresh (suc before) (singleton {T = T}) in
        (calls.0 ≡ replicate (suc before) (some 0))
        × (calls.1.heap 0 ≡ some fresh)
        × (calls.1.next ≡ 1)
        × Returns (destroy_instance calls.1) (λ s.
          ((get_all fresh later s).0 ≡ replicate later (some 0))
          × ((get_all fresh later s).1.heap 0 ≡ none)
          × (destroy_instance (get_all fresh later s).1 ≡ fault dangling))
  unfolding get_all get_instance init_instance singleton destroy_instance
  get_all-destroy_instance fresh before later =
      let first : Singleton T = record {
        instance_flag = true;
        instance_at = some 0;
        heap = insert no_entries 0 fresh;
        next = 1;
      } in
      let destroyed : Singleton T = record first { heap = erase first.heap 0 } in
      rw (get_all-again fresh before first refl) (
        refl,
        refl,
        refl,
        (destroyed, refl, rw (get_all-again fresh later destroyed refl) (refl, refl, refl)),
      )
