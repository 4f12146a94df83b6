-- ===== src/Net/Wire/Manager.antt =====
-- flatbuffer/net_generated.h: the messages of the global manager and the application, as they are
-- written and read. The fields are added in the order of the functions Create....
use grit.Common.{to_int, Text, ℕ, ◌%◌, ◌^◌, ◌≡◌, refl, Bool, Option, option_map, List, [], ◌∷◌, map}
use grit.Net
use grit.Net.{to_bool}
use grit.Net.Wire.{
  Field, element, offset, Flatbuffers, text_of, vector_of, string_offset, vector_offset,
  text_of-string_offset, vector_of-vector_offset, byte_of, to_bool-byte_of,
}

module _ (fb : Flatbuffers) where
  open fb use {FlatTable, end_table, get_field, get_pointer, get_field_added, get_pointer_added}

  unfoldable pub read_gtm_msg : FlatTable → Net.GtmMsg
  read_gtm_msg t = record {
    cmd = get_field 32 t 4 0;
    txid = get_field 32 t 6 0;
    is_local_conflict = to_bool (get_field 8 t 8 0);
    trans_type = text_of (get_pointer t 10);
  }

  abbrev pub gtm_msg_fields : ℕ → ℕ → Bool → Option Text → List (Field FlatTable)
  gtm_msg_fields cmd txid is_local_conflict trans_type =
      offset 10 (string_offset trans_type)
      ∷ element 32 6 txid 0
      ∷ element 32 4 cmd 0
      ∷ element 8 8 (byte_of is_local_conflict) 0
      ∷ []

  unfoldable pub write_gtm_msg : ℕ → ℕ → Bool → Option Text → FlatTable
  write_gtm_msg cmd txid is_local_conflict trans_type =
      end_table (gtm_msg_fields cmd txid is_local_conflict trans_type)

  pub read-write_gtm_msg :
      (cmd : ℕ) (txid : ℕ) (is_local_conflict : Bool) (trans_type : Option Text)
      → read_gtm_msg (write_gtm_msg cmd txid is_local_conflict trans_type)
        ≡ Net.create_gtm_msg (to_int cmd) (to_int txid) is_local_conflict trans_type
  unfolding read_gtm_msg write_gtm_msg
  read-write_gtm_msg cmd txid is_local_conflict trans_type =
      let fs = gtm_msg_fields cmd txid is_local_conflict trans_type in
      rw
        (
          get_field_added fs 32 4 (to_int cmd) 0 refl,
          get_field_added fs 32 6 (to_int txid) 0 refl,
          get_field_added fs 8 8 (byte_of is_local_conflict % 2 ^ 8) 0 refl,
          to_bool-byte_of is_local_conflict,
          get_pointer_added fs 10 (string_offset trans_type) refl,
          text_of-string_offset FlatTable trans_type,
        )
        refl

  unfoldable pub read_ip_and_port : FlatTable → Net.IpAndPort
  read_ip_and_port t = record { ip = text_of (get_pointer t 4); port = get_field 32 t 6 0 }

  abbrev pub ip_and_port_fields : Option Text → ℕ → List (Field FlatTable)
  ip_and_port_fields ip port = element 32 6 port 0 ∷ offset 4 (string_offset ip) ∷ []

  unfoldable pub write_ip_and_port : Option Text → ℕ → FlatTable
  write_ip_and_port ip port = end_table (ip_and_port_fields ip port)

  pub read-write_ip_and_port :
      (ip : Option Text) (port : ℕ)
      → read_ip_and_port (write_ip_and_port ip port) ≡ Net.create_ip_and_port ip (to_int port)
  unfolding read_ip_and_port write_ip_and_port
  read-write_ip_and_port ip port =
      let fs = ip_and_port_fields ip port in
      rw
        (
          get_pointer_added fs 4 (string_offset ip) refl,
          text_of-string_offset FlatTable ip,
          get_field_added fs 32 6 (to_int port) 0 refl,
        )
        refl

  unfoldable pub read_app_msg : FlatTable → Net.AppMsg
  unfolding read_ip_and_port
  read_app_msg t = record {
    cmd = get_field 32 t 4 0;
    txid = get_field 32 t 6 0;
    list = option_map (map read_ip_and_port) (vector_of (get_pointer t 8));
  }

  abbrev pub app_msg_fields : ℕ → ℕ → Option (List FlatTable) → List (Field FlatTable)
  app_msg_fields cmd txid list =
      offset 8 (vector_offset list) ∷ element 32 6 txid 0 ∷ element 32 4 cmd 0 ∷ []

  unfoldable pub write_app_msg : ℕ → ℕ → Option (List FlatTable) → FlatTable
  write_app_msg cmd txid list = end_table (app_msg_fields cmd txid list)

  pub read-write_app_msg :
      (cmd : ℕ) (txid : ℕ) (list : Option (List FlatTable))
      → read_app_msg (write_app_msg cmd txid list)
        ≡ Net.create_app_msg (to_int cmd) (to_int txid) (option_map (map read_ip_and_port) list)
  unfolding read_app_msg write_app_msg
  read-write_app_msg cmd txid list =
      let fs = app_msg_fields cmd txid list in
      rw
        (
          get_field_added fs 32 4 (to_int cmd) 0 refl,
          get_field_added fs 32 6 (to_int txid) 0 refl,
          get_pointer_added fs 8 (vector_offset list) refl,
          vector_of-vector_offset FlatTable list,
        )
        refl
