-- ===== src/Singleton/Tests.antt =====
-- A singleton of a number.
use grit.Common.{replicate, Returns, ℕ, ◌≡◌, refl, none, some, fault, dangling}
use grit.Singleton.{init_instance, singleton, get_instance, destroy_instance}
use grit.Singleton.Lifetime.{get_all, get_all-destroy_instance}

get_all-destroy_instance_example :
    let calls = get_all 7 2 (singleton {T = ℕ}) in
    (calls.0 ≡ replicate 2 (some 0))
    × (calls.1.heap 0 ≡ some 7)
    × (calls.1.next ≡ 1)
    × Returns (destroy_instance calls.1) (λ s.
      ((get_all 7 1 s).0 ≡ replicate 1 (some 0))
      × ((get_all 7 1 s).1.heap 0 ≡ none)
      × (destroy_instance (get_all 7 1 s).1 ≡ fault dangling))
get_all-destroy_instance_example = get_all-destroy_instance 7 1 1

first_call : (get_instance 7 (singleton {T = ℕ})).0 ≡ some 0
unfolding get_instance init_instance singleton
first_call = refl
