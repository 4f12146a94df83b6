-- ===== src/Net/Wire/Root.antt =====
-- flatbuffer/net_generated.h: the enum Msg and the table RootMsg, which holds a message and its
-- tag.
use grit.Common.{
  ◌==◌, if◌then◌else◌, Outcome, ◌>>=◌, deref, ℕ, ◌%◌, ◌^◌, ◌<◌, ◌≡◌, refl, ◌∙◌, Option, none, some,
  List, [], ◌∷◌, arith, ok,
}
use grit.Net.{
  RootMsg, empty_msg, gtm_msg, app_msg, db_service_msg, dbtl_msg, dbtl_ack_msg, es_msg, dbtm_msg,
  db_msg, log_player_msg,
}
use grit.Net.Wire.{Field, element, offset, Pointer, to_table, Flatbuffers, table_of}
use grit.Net.Wire.Manager.{read_gtm_msg, read_app_msg}
use grit.Net.Wire.Entities.{read_es_msg, read_db_msg, read_db_service_msg}
use grit.Net.Wire.Logs.{read_dbtl_msg, read_dbtm_msg, read_dbtl_ack_msg, read_log_player_msg}

-- The tag of a message.
abbrev pub tag : RootMsg → ℕ
tag empty_msg = 0
tag (gtm_msg m) = 1
tag (app_msg m) = 2
tag (db_service_msg m) = 3
tag (dbtl_msg m) = 4
tag (dbtl_ack_msg m) = 5
tag (es_msg m) = 6
tag (dbtm_msg m) = 7
tag (db_msg m) = 8
tag (log_player_msg m) = 9

module _ (fb : Flatbuffers) where
  open fb use {FlatTable, end_table, get_field, get_pointer, get_field_added, get_pointer_added}

  unfoldable pub any_type : FlatTable → ℕ
  any_type t = get_field 8 t 4 0

  unfoldable pub any : FlatTable → Option FlatTable
  any t = table_of (get_pointer t 6)

  -- any_as_GtmMsg and its kin, by the tag that they ask for.
  unfoldable pub any_as : ℕ → FlatTable → Option FlatTable
  unfolding any_type any
  any_as k t = if any_type t == k then any t else none

  abbrev pub table_offset : Option FlatTable → Option (Pointer FlatTable)
  table_offset none = none
  table_offset (some t) = some (to_table t)

  abbrev pub root_msg_fields : ℕ → Option FlatTable → List (Field FlatTable)
  root_msg_fields any_type any = offset 6 (table_offset any) ∷ element 8 4 any_type 0 ∷ []

  unfoldable pub write_root_msg : ℕ → Option FlatTable → FlatTable
  write_root_msg any_type any = end_table (root_msg_fields any_type any)

  pub any_as-write_root_msg :
      (j k : ℕ) (t : FlatTable)
      → k < 256
      → any_as j (write_root_msg k (some t)) ≡ (if k == j then some t else none)
  unfolding any_as any_type any write_root_msg
  any_as-write_root_msg j k t small =
      let fs = root_msg_fields k (some t) in
      let kept : k % 2 ^ 8 ≡ k = omega arith in
      rw
        (
          get_field_added fs 8 4 (k % 2 ^ 8) 0 refl,
          get_pointer_added fs 6 (some (to_table t)) refl,
          kept,
        )
        refl

  -- The message in the table, by the test of its type and the cast that the handlers do.
  unfoldable pub read_root_msg : FlatTable → Outcome RootMsg
  unfolding any_type any read_gtm_msg read_app_msg read_db_service_msg read_dbtl_msg
      read_dbtl_ack_msg read_es_msg read_dbtm_msg read_db_msg read_log_player_msg
  read_root_msg t =
      let content = deref (any t) in
      if any_type t == 1
      then (content >>= λ x. ok (gtm_msg (read_gtm_msg fb x)))
      else if any_type t == 2
      then (content >>= λ x. ok (app_msg (read_app_msg fb x)))
      else if any_type t == 3
      then (content >>= λ x. ok (db_service_msg (read_db_service_msg fb x)))
      else if any_type t == 4
      then (content >>= λ x. ok (dbtl_msg (read_dbtl_msg fb x)))
      else if any_type t == 5
      then (content >>= λ x. ok (dbtl_ack_msg (read_dbtl_ack_msg fb x)))
      else if any_type t == 6
      then (content >>= λ x. ok (es_msg (read_es_msg fb x)))
      else if any_type t == 7
      then (content >>= λ x. ok (dbtm_msg (read_dbtm_msg fb x)))
      else if any_type t == 8
      then (content >>= λ x. ok (db_msg (read_db_msg fb x)))
      else if any_type t == 9
      then (content >>= λ x. ok (log_player_msg (read_log_player_msg fb x)))
      else ok empty_msg

  pub any_type-write_root_msg :
      (k : ℕ) (o : Option FlatTable) → k < 256 → any_type (write_root_msg k o) ≡ k
  unfolding any_type write_root_msg
  any_type-write_root_msg k o small =
      let kept : k % 2 ^ 8 ≡ k = omega arith in
      get_field_added (root_msg_fields k o) 8 4 (k % 2 ^ 8) 0 refl ∙ kept

  pub any-write_root_msg : (k : ℕ) (t : FlatTable) → any (write_root_msg k (some t)) ≡ some t
  unfolding any write_root_msg
  any-write_root_msg k t =
      rw (get_pointer_added (root_msg_fields k (some t)) 6 (some (to_table t)) refl) refl
