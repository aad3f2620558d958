-- ===== src/Health/Examples/Servers.antt =====
-- Runs of the facts of a server.
use server_scan.Prelude.{pos, some, List, [], ◌∷◌, ◌≡◌, refl}
use server_scan.Health.Metrics.{core_metrics}
use server_scan.Health.Condition.Total.{Conforms}
use server_scan.Health.Facts.{ConnectivityAttachment, extract_facts, os_disk_capacity}
use server_scan.Health.Facts.Laws.{extract_facts-Conforms}
use server_scan.Health.Examples.{server, lower, drives}

extract_facts-Conforms_example :
    Conforms (record { metrics = core_metrics }) (extract_facts lower server)
extract_facts-Conforms_example = extract_facts-Conforms lower server

os_size : os_disk_capacity drives ≡ some (pos 480)
unfolding os_disk_capacity
os_size = refl

abbrev attachments : List ConnectivityAttachment
attachments =
    record { fabric = some "A"; oper_state = "UP"; interface_kind = "PHYSICAL" }
    ∷ record { fabric = some "B"; oper_state = "DOWN"; interface_kind = "PHYSICAL" }
    ∷ record { fabric = some "B"; oper_state = "UP"; interface_kind = "VNIC" }
    ∷ []
