-- ===== src/Common/Tables.antt =====
-- std::unordered_map<int, V>: none of the program's loops walks over one, so a map is a function.
use Prim.Native.Nat.{ℕ}
use mathlib.Core.Option.{Option, none, some}
use grit.Common.Tests.{◌==◌, if◌then◌else◌}

abbrev pub Table {ℓ} : Type ℓ → Type ℓ
Table V = ℕ → Option V

module _ {ℓ} {V : Type ℓ} where
  abbrev pub no_entries : Table V
  no_entries k = none

  -- m[k] = v
  abbrev pub insert : Table V → ℕ → V → Table V
  insert m k v j = if k == j then some v else m j

  -- m.erase(k)
  abbrev pub erase : Table V → ℕ → Table V
  erase m k j = if k == j then none else m j

  -- The value of m[k] where a missing key is default-constructed to `d`.
  abbrev pub get_default : V → Option V → V
  get_default d none = d
  get_default d (some v) = v
