-- ===== src/Net/Wire/Letters.antt =====
-- flatbuffer/net_generated.h: a message from its sender, which builds its parts and then the whole,
-- to its receiver.
use grit.Common.{
  All, All-Unit, word_mod, to_int, ℕ, ◌<◌, ◌≡◌, refl, ap, ◌∙◌, Option, none, some, option_map, List,
  [], ◌∷◌, map, arith, ok,
}
use grit.Net.{
  RootMsg, empty_msg, gtm_msg, app_msg, db_service_msg, dbtl_msg, dbtl_ack_msg, es_msg, dbtm_msg,
  db_msg, log_player_msg,
}
use grit.Net
use grit.Net.Wire.{Flatbuffers}
use grit.Net.Wire.Manager.{
  write_gtm_msg, read-write_gtm_msg, read_ip_and_port, write_ip_and_port, read-write_ip_and_port,
  write_app_msg, read-write_app_msg,
}
use grit.Net.Wire.Entities.{
  write_es_msg, read-write_es_msg, read_item, write_item, read-write_item, write_db_msg,
  read-write_db_msg, write_db_service_msg, read-write_db_service_msg,
}
use grit.Net.Wire.Logs.{
  write_dbtl_msg, read-write_dbtl_msg, write_dbtm_msg, read-write_dbtm_msg, write_dbtl_ack_msg,
  read-write_dbtl_ack_msg, write_log_player_msg, read-write_log_player_msg,
}
use grit.Net.Wire.Root.{
  tag, write_root_msg, read_root_msg, any_type-write_root_msg, any-write_root_msg,
}

-- All numbers of a message are 32-bit integers.
abbrev IsWord : ℕ → Type 0
IsWord n = n < word_mod

abbrev WordPort : Net.IpAndPort → Type 0
WordPort e = IsWord e.port

abbrev WordPorts : Option (List Net.IpAndPort) → Type 0
WordPorts none = Unit
WordPorts (some es) = All WordPort es

abbrev pub IsWords : RootMsg → Type 0
IsWords empty_msg = Unit
IsWords (gtm_msg m) = IsWord m.cmd × IsWord m.txid
IsWords (app_msg m) = IsWord m.cmd × IsWord m.txid × WordPorts m.list
IsWords (db_service_msg m) = IsWord m.cmd × IsWord m.txid
IsWords (dbtl_msg m) = IsWord m.cmd × IsWord m.txid
IsWords (dbtl_ack_msg m) = IsWord m.lsn × IsWord m.txid
IsWords (es_msg m) = IsWord m.cmd × IsWord m.txid × IsWord m.type
IsWords (dbtm_msg m) = IsWord m.cmd × IsWord m.txid × IsWord m.lsn
IsWords (db_msg m) = IsWord m.txid
IsWords (log_player_msg m) = IsWord m.cmd × IsWord m.txid × IsWord m.id

to_int-word : {n : ℕ} → IsWord n → to_int n ≡ n
to_int-word h = omega arith

-- The parts of a vector, written and read.
map_back :
    {A T : Type 0} (P : A → Type 0) (read : T → A) (write : A → T) (xs : List A)
    → ((x : A) → P x → read (write x) ≡ x)
    → All P xs
    → map read (map write xs) ≡ xs
map_back P read write [] h a = refl
map_back P read write (x ∷ xs) h a = rw (h x a.0, map_back P read write xs h a.1) refl

module _ (fb : Flatbuffers) where
  open fb use {FlatTable}

  abbrev pack_port : Net.IpAndPort → FlatTable
  pack_port e = write_ip_and_port fb e.ip e.port

  abbrev pack_item : Net.Data → FlatTable
  pack_item d = write_item fb d.key d.attribute d.value

  abbrev pack_items : Option (List Net.Data) → Option (List FlatTable)
  pack_items = option_map (map pack_item)

  ports_back :
      (es : Option (List Net.IpAndPort))
      → WordPorts es
      → option_map (map (read_ip_and_port fb)) (option_map (map pack_port) es) ≡ es
  ports_back none h = refl
  ports_back (some es) h = ap some (
      map_back WordPort (read_ip_and_port fb) pack_port es
        (λ e w. read-write_ip_and_port fb e.ip e.port ∙ rw (to_int-word w) refl) h)

  items_back : (ds : Option (List Net.Data)) → option_map (map (read_item fb)) (pack_items ds) ≡ ds
  items_back none = refl
  items_back (some ds) = ap some (
      map_back (λ d. Unit {0}) (read_item fb) pack_item ds
        (λ d w. read-write_item fb d.key d.attribute d.value) (All-Unit ds))

  -- The content of a message. A message without one has no content.
  abbrev pub content : RootMsg → Option FlatTable
  content empty_msg = none
  content (gtm_msg m) = some (write_gtm_msg fb m.cmd m.txid m.is_local_conflict m.trans_type)
  content (app_msg m) = some (write_app_msg fb m.cmd m.txid (option_map (map pack_port) m.list))
  content (db_service_msg m) = some (
      write_db_service_msg fb m.cmd m.txid m.need_global_conflict (pack_items m.read_set)
        (pack_items m.write_set))
  content (dbtl_msg m) = some (write_dbtl_msg fb m.cmd m.txid (pack_items m.items))
  content (dbtl_ack_msg m) = some (write_dbtl_ack_msg fb m.lsn m.txid)
  content (es_msg m) =
      some (write_es_msg fb m.cmd m.txid m.need_global_conflict m.type m.key m.attr m.val)
  content (dbtm_msg m) = some (write_dbtm_msg fb m.cmd m.txid m.is_global_conflict m.lsn)
  content (db_msg m) = some (write_db_msg fb m.txid (pack_items m.write_set))
  content (log_player_msg m) = some (write_log_player_msg fb m.cmd m.txid m.id)

  unfoldable pub letter : RootMsg → FlatTable
  letter m = write_root_msg fb (tag m) (content m)

  -- Whatever flatbuffers does beyond its promise that a field that was added once is read back: a
  -- message whose numbers are 32-bit integers arrives as it was built, with all its parts.
  pub read_root_msg-letter : (m : RootMsg) → IsWords m → read_root_msg fb (letter m) ≡ ok m
  unfolding letter read_root_msg
  read_root_msg-letter empty_msg w = rw (any_type-write_root_msg fb 0 none (omega arith)) refl
  read_root_msg-letter (gtm_msg m) w =
      let t = write_gtm_msg fb m.cmd m.txid m.is_local_conflict m.trans_type in
      rw
        (
          any_type-write_root_msg fb 1 (some t) (omega arith),
          any-write_root_msg fb 1 t,
          read-write_gtm_msg fb m.cmd m.txid m.is_local_conflict m.trans_type,
          to_int-word w.0,
          to_int-word w.1,
        )
        refl
  read_root_msg-letter (app_msg m) w =
      let t = write_app_msg fb m.cmd m.txid (option_map (map pack_port) m.list) in
      rw
        (
          any_type-write_root_msg fb 2 (some t) (omega arith),
          any-write_root_msg fb 2 t,
          read-write_app_msg fb m.cmd m.txid (option_map (map pack_port) m.list),
          to_int-word w.0,
          to_int-word w.1,
          ports_back m.list w.2,
        )
        refl
  read_root_msg-letter (db_service_msg m) w =
      let t =
        write_db_service_msg fb m.cmd m.txid m.need_global_conflict (pack_items m.read_set)
          (pack_items m.write_set) in
      rw
        (
          any_type-write_root_msg fb 3 (some t) (omega arith),
          any-write_root_msg fb 3 t,
          read-write_db_service_msg fb m.cmd m.txid m.need_global_conflict (pack_items m.read_set)
              (pack_items m.write_set),
          to_int-word w.0,
          to_int-word w.1,
          items_back m.read_set,
          items_back m.write_set,
        )
        refl
  read_root_msg-letter (dbtl_msg m) w =
      let t = write_dbtl_msg fb m.cmd m.txid (pack_items m.items) in
      rw
        (
          any_type-write_root_msg fb 4 (some t) (omega arith),
          any-write_root_msg fb 4 t,
          read-write_dbtl_msg fb m.cmd m.txid (pack_items m.items),
          to_int-word w.0,
          to_int-word w.1,
          items_back m.items,
        )
        refl
  read_root_msg-letter (dbtl_ack_msg m) w =
      let t = write_dbtl_ack_msg fb m.lsn m.txid in
      rw
        (
          any_type-write_root_msg fb 5 (some t) (omega arith),
          any-write_root_msg fb 5 t,
          read-write_dbtl_ack_msg fb m.lsn m.txid,
          to_int-word w.0,
          to_int-word w.1,
        )
        refl
  read_root_msg-letter (es_msg m) w =
      let t = write_es_msg fb m.cmd m.txid m.need_global_conflict m.type m.key m.attr m.val in
      rw
        (
          any_type-write_root_msg fb 6 (some t) (omega arith),
          any-write_root_msg fb 6 t,
          read-write_es_msg fb m.cmd m.txid m.need_global_conflict m.type m.key m.attr m.val,
          to_int-word w.0,
          to_int-word w.1,
          to_int-word w.2,
        )
        refl
  read_root_msg-letter (dbtm_msg m) w =
      let t = write_dbtm_msg fb m.cmd m.txid m.is_global_conflict m.lsn in
      rw
        (
          any_type-write_root_msg fb 7 (some t) (omega arith),
          any-write_root_msg fb 7 t,
          read-write_dbtm_msg fb m.cmd m.txid m.is_global_conflict m.lsn,
          to_int-word w.0,
          to_int-word w.1,
          to_int-word w.2,
        )
        refl
  read_root_msg-letter (db_msg m) w =
      let t = write_db_msg fb m.txid (pack_items m.write_set) in
      rw
        (
          any_type-write_root_msg fb 8 (some t) (omega arith),
          any-write_root_msg fb 8 t,
          read-write_db_msg fb m.txid (pack_items m.write_set),
          to_int-word w,
          items_back m.write_set,
        )
        refl
  read_root_msg-letter (log_player_msg m) w =
      let t = write_log_player_msg fb m.cmd m.txid m.id in
      rw
        (
          any_type-write_root_msg fb 9 (some t) (omega arith),
          any-write_root_msg fb 9 t,
          read-write_log_player_msg fb m.cmd m.txid m.id,
          to_int-word w.0,
          to_int-word w.1,
          to_int-word w.2,
        )
        refl
