-- ===== src/Net/Wire/Entities.antt =====
-- flatbuffer/net_generated.h: the messages of the entity services, the database services and the
-- storage servers, as they are written and read. The fields are added in the order of the functions
-- Create....
use grit.Common.{to_int, Text, ℕ, ◌%◌, ◌^◌, ◌≡◌, refl, Bool, Option, option_map, List, [], ◌∷◌, map}
use grit.Net
use grit.Net.{to_bool}
use grit.Net.Wire.{
  Field, element, offset, Flatbuffers, text_of, vector_of, string_offset, vector_offset,
  text_of-string_offset, vector_of-vector_offset, byte_of, to_bool-byte_of,
}

module _ (fb : Flatbuffers) where
  open fb use {FlatTable, end_table, get_field, get_pointer, get_field_added, get_pointer_added}

  unfoldable pub read_es_msg : FlatTable → Net.EsMsg
  read_es_msg t = record {
    cmd = get_field 32 t 4 0;
    txid = get_field 32 t 6 0;
    need_global_conflict = to_bool (get_field 8 t 8 0);
    type = get_field 32 t 10 0;
    key = text_of (get_pointer t 12);
    attr = text_of (get_pointer t 14);
    val = text_of (get_pointer t 16);
  }

  abbrev pub es_msg_fields :
      ℕ → ℕ → Bool → ℕ → Option Text → Option Text → Option Text → List (Field FlatTable)
  es_msg_fields cmd txid need_global_conflict type key attr val =
      offset 16 (string_offset val)
      ∷ offset 14 (string_offset attr)
      ∷ offset 12 (string_offset key)
      ∷ element 32 10 type 0
      ∷ element 32 6 txid 0
      ∷ element 32 4 cmd 0
      ∷ element 8 8 (byte_of need_global_conflict) 0
      ∷ []

  unfoldable pub write_es_msg :
      ℕ → ℕ → Bool → ℕ → Option Text → Option Text → Option Text → FlatTable
  write_es_msg cmd txid need_global_conflict type key attr val =
      end_table (es_msg_fields cmd txid need_global_conflict type key attr val)

  pub read-write_es_msg :
      (cmd : ℕ) (txid : ℕ) (need_global_conflict : Bool) (type : ℕ) (key : Option Text)
      (attr : Option Text) (val : Option Text)
      → read_es_msg (write_es_msg cmd txid need_global_conflict type key attr val)
        ≡ Net.create_es_msg
            (to_int cmd)
            (to_int txid)
            need_global_conflict
            (to_int type)
            key
            attr
            val
  unfolding read_es_msg write_es_msg
  read-write_es_msg cmd txid need_global_conflict type key attr val =
      let fs = es_msg_fields cmd txid need_global_conflict type key attr val in
      rw
        (
          get_field_added fs 32 4 (to_int cmd) 0 refl,
          get_field_added fs 32 6 (to_int txid) 0 refl,
          get_field_added fs 8 8 (byte_of need_global_conflict % 2 ^ 8) 0 refl,
          to_bool-byte_of need_global_conflict,
          get_field_added fs 32 10 (to_int type) 0 refl,
          get_pointer_added fs 12 (string_offset key) refl,
          text_of-string_offset FlatTable key,
          get_pointer_added fs 14 (string_offset attr) refl,
          text_of-string_offset FlatTable attr,
          get_pointer_added fs 16 (string_offset val) refl,
          text_of-string_offset FlatTable val,
        )
        refl

  unfoldable pub read_item : FlatTable → Net.Data
  read_item t = record {
    key = text_of (get_pointer t 4);
    attribute = text_of (get_pointer t 6);
    value = text_of (get_pointer t 8);
  }

  abbrev pub item_fields : Option Text → Option Text → Option Text → List (Field FlatTable)
  item_fields key attribute value =
      offset 8 (string_offset value)
      ∷ offset 6 (string_offset attribute)
      ∷ offset 4 (string_offset key)
      ∷ []

  unfoldable pub write_item : Option Text → Option Text → Option Text → FlatTable
  write_item key attribute value = end_table (item_fields key attribute value)

  pub read-write_item :
      (key : Option Text) (attribute : Option Text) (value : Option Text)
      → read_item (write_item key attribute value) ≡ Net.create_data key attribute value
  unfolding read_item write_item
  read-write_item key attribute value =
      let fs = item_fields key attribute value in
      rw
        (
          get_pointer_added fs 4 (string_offset key) refl,
          text_of-string_offset FlatTable key,
          get_pointer_added fs 6 (string_offset attribute) refl,
          text_of-string_offset FlatTable attribute,
          get_pointer_added fs 8 (string_offset value) refl,
          text_of-string_offset FlatTable value,
        )
        refl

  unfoldable pub read_db_msg : FlatTable → Net.DbMsg
  unfolding read_item
  read_db_msg t = record {
    txid = get_field 32 t 4 0;
    write_set = option_map (map read_item) (vector_of (get_pointer t 6));
  }

  abbrev pub db_msg_fields : ℕ → Option (List FlatTable) → List (Field FlatTable)
  db_msg_fields txid write_set = offset 6 (vector_offset write_set) ∷ element 32 4 txid 0 ∷ []

  unfoldable pub write_db_msg : ℕ → Option (List FlatTable) → FlatTable
  write_db_msg txid write_set = end_table (db_msg_fields txid write_set)

  pub read-write_db_msg :
      (txid : ℕ) (write_set : Option (List FlatTable))
      → read_db_msg (write_db_msg txid write_set)
        ≡ Net.create_db_msg (to_int txid) (option_map (map read_item) write_set)
  unfolding read_db_msg write_db_msg
  read-write_db_msg txid write_set =
      let fs = db_msg_fields txid write_set in
      rw
        (
          get_field_added fs 32 4 (to_int txid) 0 refl,
          get_pointer_added fs 6 (vector_offset write_set) refl,
          vector_of-vector_offset FlatTable write_set,
        )
        refl

  unfoldable pub read_db_service_msg : FlatTable → Net.DbServiceMsg
  unfolding read_item
  read_db_service_msg t = record {
    cmd = get_field 32 t 4 0;
    txid = get_field 32 t 6 0;
    need_global_conflict = to_bool (get_field 8 t 8 0);
    read_set = option_map (map read_item) (vector_of (get_pointer t 10));
    write_set = option_map (map read_item) (vector_of (get_pointer t 12));
  }

  abbrev pub db_service_msg_fields :
      ℕ → ℕ → Bool → Option (List FlatTable) → Option (List FlatTable) → List (Field FlatTable)
  db_service_msg_fields cmd txid need_global_conflict read_set write_set =
      offset 12 (vector_offset write_set)
      ∷ offset 10 (vector_offset read_set)
      ∷ element 32 6 txid 0
      ∷ element 32 4 cmd 0
      ∷ element 8 8 (byte_of need_global_conflict) 0
      ∷ []

  unfoldable pub write_db_service_msg :
      ℕ → ℕ → Bool → Option (List FlatTable) → Option (List FlatTable) → FlatTable
  write_db_service_msg cmd txid need_global_conflict read_set write_set =
      end_table (db_service_msg_fields cmd txid need_global_conflict read_set write_set)

  pub read-write_db_service_msg :
      (cmd : ℕ) (txid : ℕ) (need_global_conflict : Bool) (read_set : Option (List FlatTable))
      (write_set : Option (List FlatTable))
      → read_db_service_msg (write_db_service_msg cmd txid need_global_conflict read_set write_set)
        ≡ Net.create_db_service_msg
            (to_int cmd)
            (to_int txid)
            need_global_conflict
            (option_map (map read_item) read_set)
            (option_map (map read_item) write_set)
  unfolding read_db_service_msg write_db_service_msg
  read-write_db_service_msg cmd txid need_global_conflict read_set write_set =
      let fs = db_service_msg_fields cmd txid need_global_conflict read_set write_set in
      rw
        (
          get_field_added fs 32 4 (to_int cmd) 0 refl,
          get_field_added fs 32 6 (to_int txid) 0 refl,
          get_field_added fs 8 8 (byte_of need_global_conflict % 2 ^ 8) 0 refl,
          to_bool-byte_of need_global_conflict,
          get_pointer_added fs 10 (vector_offset read_set) refl,
          vector_of-vector_offset FlatTable read_set,
          get_pointer_added fs 12 (vector_offset write_set) refl,
          vector_of-vector_offset FlatTable write_set,
        )
        refl
