-- ===== src/Singleton.antt =====
-- base/singleton.h: one object behind pthread_once. `m_InstanceFlag` says whether `initInstance`
-- has run. Objects stand on a heap, so that a deleted one can be told from a living one; `new T()`
-- puts `fresh` at the next address.
mod Tests
pub mod Lifetime
use grit.Common.{
  if◌then◌else◌, Outcome, ◌>>=◌, or_fault, Table, no_entries, insert, erase, ℕ, ◌+◌, Bool, true,
  false, Option, none, some, ok, dangling,
}

pub record Singleton (T : Type 0) : Type 0 where
  pub instance_flag : Bool
  pub instance_at : Option ℕ
  pub heap : Table T
  pub next : ℕ

module _ {T : Type 0} where
  -- The static members before the first call.
  unfoldable pub singleton : Singleton T
  singleton = record { instance_flag = false; instance_at = none; heap = no_entries; next = 0 }

  unfoldable pub init_instance : T → Singleton T → Singleton T
  init_instance fresh s = record s {
    instance_at = some s.next;
    heap = insert s.heap s.next fresh;
    next = s.next + 1;
  }

  -- pthread_once runs `initInstance` in the first call only.
  unfoldable pub get_instance : T → Singleton T → Option ℕ × Singleton T
  unfolding init_instance
  get_instance fresh s =
      let first : Singleton T = record (init_instance fresh s) { instance_flag = true } in
      let s' = if s.instance_flag then s else first in (s'.instance_at, s')

  -- `delete` on the pointer, which stays as it is.
  unfoldable pub destroy_instance : Singleton T → Outcome (Singleton T)
  destroy_instance s = elim s.instance_at [
    | none ↦ ok s
    | some p ↦ do object ← or_fault dangling (s.heap p); ok (record s { heap = erase s.heap p })
  ]
