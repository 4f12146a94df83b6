-- ===== src/Net/Wire/Logs.antt =====
-- flatbuffer/net_generated.h: the messages of the log store, its player and Dbtm, as they are
-- written and read. The fields are added in the order of the functions Create....
use grit.Common.{to_int, ℕ, ◌%◌, ◌^◌, ◌≡◌, refl, Bool, Option, option_map, List, [], ◌∷◌, map}
use grit.Net
use grit.Net.{to_bool}
use grit.Net.Wire.{
  Field, element, offset, Flatbuffers, vector_of, vector_offset, vector_of-vector_offset, byte_of,
  to_bool-byte_of,
}
use grit.Net.Wire.Entities.{read_item}

module _ (fb : Flatbuffers) where
  open fb use {FlatTable, end_table, get_field, get_pointer, get_field_added, get_pointer_added}

  unfoldable pub read_dbtl_msg : FlatTable → Net.DbtlMsg
  unfolding read_item
  read_dbtl_msg t = record {
    cmd = get_field 32 t 4 0;
    txid = get_field 32 t 6 0;
    items = option_map (map (read_item fb)) (vector_of (get_pointer t 8));
  }

  abbrev pub dbtl_msg_fields : ℕ → ℕ → Option (List FlatTable) → List (Field FlatTable)
  dbtl_msg_fields cmd txid items =
      offset 8 (vector_offset items) ∷ element 32 6 txid 0 ∷ element 32 4 cmd 0 ∷ []

  unfoldable pub write_dbtl_msg : ℕ → ℕ → Option (List FlatTable) → FlatTable
  write_dbtl_msg cmd txid items = end_table (dbtl_msg_fields cmd txid items)

  pub read-write_dbtl_msg :
      (cmd : ℕ) (txid : ℕ) (items : Option (List FlatTable))
      → read_dbtl_msg (write_dbtl_msg cmd txid items)
        ≡ Net.create_dbtl_msg (to_int cmd) (to_int txid) (option_map (map (read_item fb)) items)
  unfolding read_dbtl_msg write_dbtl_msg
  read-write_dbtl_msg cmd txid items =
      let fs = dbtl_msg_fields cmd txid items in
      rw
        (
          get_field_added fs 32 4 (to_int cmd) 0 refl,
          get_field_added fs 32 6 (to_int txid) 0 refl,
          get_pointer_added fs 8 (vector_offset items) refl,
          vector_of-vector_offset FlatTable items,
        )
        refl

  unfoldable pub read_dbtm_msg : FlatTable → Net.DbtmMsg
  read_dbtm_msg t = record {
    cmd = get_field 32 t 4 0;
    txid = get_field 32 t 6 0;
    is_global_conflict = to_bool (get_field 8 t 8 0);
    lsn = get_field 32 t 10 0;
  }

  abbrev pub dbtm_msg_fields : ℕ → ℕ → Bool → ℕ → List (Field FlatTable)
  dbtm_msg_fields cmd txid is_global_conflict lsn =
      element 32 10 lsn 0
      ∷ element 32 6 txid 0
      ∷ element 32 4 cmd 0
      ∷ element 8 8 (byte_of is_global_conflict) 0
      ∷ []

  unfoldable pub write_dbtm_msg : ℕ → ℕ → Bool → ℕ → FlatTable
  write_dbtm_msg cmd txid is_global_conflict lsn =
      end_table (dbtm_msg_fields cmd txid is_global_conflict lsn)

  pub read-write_dbtm_msg :
      (cmd : ℕ) (txid : ℕ) (is_global_conflict : Bool) (lsn : ℕ)
      → read_dbtm_msg (write_dbtm_msg cmd txid is_global_conflict lsn)
        ≡ Net.create_dbtm_msg (to_int cmd) (to_int txid) is_global_conflict (to_int lsn)
  unfolding read_dbtm_msg write_dbtm_msg
  read-write_dbtm_msg cmd txid is_global_conflict lsn =
      let fs = dbtm_msg_fields cmd txid is_global_conflict lsn in
      rw
        (
          get_field_added fs 32 4 (to_int cmd) 0 refl,
          get_field_added fs 32 6 (to_int txid) 0 refl,
          get_field_added fs 8 8 (byte_of is_global_conflict % 2 ^ 8) 0 refl,
          to_bool-byte_of is_global_conflict,
          get_field_added fs 32 10 (to_int lsn) 0 refl,
        )
        refl

  unfoldable pub read_dbtl_ack_msg : FlatTable → Net.DbtlAckMsg
  read_dbtl_ack_msg t = record { lsn = get_field 32 t 4 0; txid = get_field 32 t 6 0 }

  abbrev pub dbtl_ack_msg_fields : ℕ → ℕ → List (Field FlatTable)
  dbtl_ack_msg_fields lsn txid = element 32 6 txid 0 ∷ element 32 4 lsn 0 ∷ []

  unfoldable pub write_dbtl_ack_msg : ℕ → ℕ → FlatTable
  write_dbtl_ack_msg lsn txid = end_table (dbtl_ack_msg_fields lsn txid)

  pub read-write_dbtl_ack_msg :
      (lsn : ℕ) (txid : ℕ)
      → read_dbtl_ack_msg (write_dbtl_ack_msg lsn txid)
        ≡ Net.create_dbtl_ack_msg (to_int lsn) (to_int txid)
  unfolding read_dbtl_ack_msg write_dbtl_ack_msg
  read-write_dbtl_ack_msg lsn txid =
      let fs = dbtl_ack_msg_fields lsn txid in
      rw (get_field_added fs 32 4 (to_int lsn) 0 refl, get_field_added fs 32 6 (to_int txid) 0 refl)
        refl

  unfoldable pub read_log_player_msg : FlatTable → Net.LogPlayerMsg
  read_log_player_msg t = record {
    cmd = get_field 32 t 4 0;
    txid = get_field 32 t 6 0;
    id = get_field 32 t 8 0;
  }

  abbrev pub log_player_msg_fields : ℕ → ℕ → ℕ → List (Field FlatTable)
  log_player_msg_fields cmd txid id =
      element 32 8 id 0 ∷ element 32 6 txid 0 ∷ element 32 4 cmd 0 ∷ []

  unfoldable pub write_log_player_msg : ℕ → ℕ → ℕ → FlatTable
  write_log_player_msg cmd txid id = end_table (log_player_msg_fields cmd txid id)

  pub read-write_log_player_msg :
      (cmd : ℕ) (txid : ℕ) (id : ℕ)
      → read_log_player_msg (write_log_player_msg cmd txid id)
        ≡ Net.create_log_player_msg (to_int cmd) (to_int txid) (to_int id)
  unfolding read_log_player_msg write_log_player_msg
  read-write_log_player_msg cmd txid id =
      let fs = log_player_msg_fields cmd txid id in
      rw
        (
          get_field_added fs 32 4 (to_int cmd) 0 refl,
          get_field_added fs 32 6 (to_int txid) 0 refl,
          get_field_added fs 32 8 (to_int id) 0 refl,
        )
        refl
