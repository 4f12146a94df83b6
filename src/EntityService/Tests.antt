-- ===== src/EntityService/Tests.antt =====
-- The entity service at work on single commands, and its theorem at a concrete input.
use grit.Common.{Safely, no_entries, codes, ◌≡◌, refl, false, none, some, [], fault, null_pointer}
use grit.Net.{EsMsg, es_msg, create_es_msg}
use grit.Net.HeaderCmd.{k_add, k_delete}
use grit.EntityService.{Es, dbs_msg, solve, on_message}
use grit.EntityService.Forwarding.{Crashes, solve-Crashes}

abbrev service : Es
service = record { table = no_entries; dbs_conn = some 5; outbox = [] }

-- What the application sends for `delete` carries no attribute.
deletes :
    on_message 1 (es_msg (create_es_msg k_delete 7 false 1 (some (codes "a")) none none)) service
    ≡ fault null_pointer
unfolding on_message solve dbs_msg
deletes = refl

adding : EsMsg
adding = create_es_msg k_add 7 false 1 (some (codes "a")) (some (codes "n")) (some (codes "3"))

solve-Crashes_example : Safely (Crashes service) (solve adding service)
solve-Crashes_example = solve-Crashes adding service
