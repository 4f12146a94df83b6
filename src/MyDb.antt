-- ===== src/MyDb.antt =====
-- base/mydb.h and mydb.cc: a connection to a database. The library libmysqlclient and what lies
-- behind it are a parameter: `W` is their state, and a handle is a number, or null.
mod Tests
use grit.Common.{
  ◌==◌, if◌then◌else◌, Outcome, ◌>>=◌, Text, ℕ, Bool, true, false, Option, none, some, ok, fault,
  exited,
}

pub record Mysql (W : Type 0) : Type 0 where
  pub mysql_init : W → Option ℕ × W
  pub mysql_real_connect : Option ℕ → Text → Text → Text → Text → ℕ → W → Option ℕ × W
  pub mysql_query : Option ℕ → Text → W → ℕ × W
  pub mysql_close : ℕ → W → W

pub record MyDb : Type 0 where
  pub mysql : Option ℕ

-- A null pointer where a connection is wanted ends the process.
unfoldable pub open_or_exit : Option ℕ → Outcome MyDb
open_or_exit none = fault exited
open_or_exit (some handle) = ok (record { mysql = some handle })

module _ {W : Type 0} (lib : Mysql W) where
  open lib use {mysql_init, mysql_real_connect, mysql_query, mysql_close}

  -- The constructor.
  unfoldable pub my_db : W → Outcome (MyDb × W)
  unfolding open_or_exit
  my_db w = let (handle, w') = mysql_init w in open_or_exit handle >>= λ d. ok (d, w')

  -- The destructor.
  unfoldable pub close : MyDb → W → W
  close d w = elim d.mysql [ none ↦ w | some handle ↦ mysql_close handle w ]

  -- The handle that was there before is overwritten.
  unfoldable pub init_db : Text → Text → Text → Text → ℕ → MyDb → W → Outcome (Bool × MyDb × W)
  unfolding open_or_exit
  init_db host user passwd db_name port d w =
      let (handle, w') = mysql_real_connect d.mysql host user passwd db_name port w in
      open_or_exit handle >>= λ d'. ok (true, d', w')

  -- The query succeeds with the status 0.
  unfoldable pub exe_sql : Text → MyDb → W → Bool × W
  exe_sql sql d w =
      let (status, w') = mysql_query d.mysql sql w in (if status == 0 then true else false, w')
