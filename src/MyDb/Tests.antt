-- ===== src/MyDb/Tests.antt =====
-- A library that keeps the statements, and refuses empty ones.
use grit.Common.{
  if◌then◌else◌, Outcome, ◌>>=◌, Text, codes, same_text, ◌≡◌, refl, Bool, true, none, some, List,
  [], ◌∷◌, ◌++◌, ok, fault, exited,
}
use grit.MyDb.{open_or_exit, Mysql, my_db, init_db, exe_sql}

abbrev statements : Mysql (List Text)
statements = record {
  mysql_init = λ w. (some 1, w);
  mysql_real_connect = λ handle host user passwd db_name port w. (handle, w);
  mysql_query = λ handle sql w. (if same_text sql [] then 1 else 0, w ++ sql ∷ []);
  mysql_close = λ handle w. w;
}

-- A database that cannot be reached.
abbrev unreachable : Mysql (List Text)
unreachable = record statements {
  mysql_real_connect = λ handle host user passwd db_name port w. (none, w);
}

session : Mysql (List Text) → Outcome (Bool × List Text)
session lib = do
  (d, w) ← my_db lib []
  (fine, d', w') ← init_db lib (codes "a") (codes "u") (codes "p") (codes "n") 3306 d w
  ok (exe_sql lib (codes "SELECT 1") d' w')

opened : session statements ≡ ok (true, codes "SELECT 1" ∷ [])
unfolding session my_db init_db exe_sql open_or_exit same_text
opened = refl

not_opened : session unreachable ≡ fault exited
unfolding session my_db init_db open_or_exit
not_opened = refl
