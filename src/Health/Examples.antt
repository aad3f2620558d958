-- ===== src/Health/Examples.antt =====
-- A small deployment for the runs of the health engine.
pub mod Conditions
pub mod Policies
pub mod Servers
use server_scan.Prelude.{
  ℕ, pos, String, Bool, true, false, Option, none, some, List, [], ◌∷◌, str_eq, if◌then◌else◌, ◌==◌,
}
use server_scan.Enums.{warning, up, down, dell}
use server_scan.Health.Values.{ok, raised, value_error}
use server_scan.Health.Metrics.{MetricRegistry, core_metrics, Facts}
use server_scan.Health.Template.{Formatter}
use server_scan.Health.Policy.{HealthPolicy}
use server_scan.Health.Facts.{Server, StorageDrive, Hardware, extract_facts}
use server_scan.Health.Write.{StoredServer}
use server_scan.Health.Evaluate.{Dimensions}
use server_scan.Health.Defaults.{failed_psu, degraded_dimm}

abbrev pub registry : MetricRegistry
registry = record { metrics = core_metrics }

abbrev pub id_of : ℕ → String
id_of n = if n == 2 then "psu" else if n == 11 then "dimm" else "other"

abbrev pub psu : HealthPolicy
psu = failed_psu 7 id_of

abbrev pub dimm : HealthPolicy
dimm = degraded_dimm 7 id_of

-- A site's own grade of the same family.
abbrev pub site_psu : HealthPolicy
site_psu = record psu {
  id = "site-psu";
  severity = warning;
  source = "SITE_CUSTOM";
  priority = pos 500;
  scope = record { site_id = some "site-a"; vendor = none; manager_types = [] };
}

abbrev pub policies : List HealthPolicy
policies = psu ∷ dimm ∷ site_psu ∷ []

abbrev pub dimensions : Dimensions
dimensions = record { vendor = "dell"; manager_type = none; site_id = some "site-a" }

abbrev pub formatter : Formatter
formatter = record {
  to_text = λ x. ok "1";
  format = λ x spec. raised value_error;
  is_field_name = λ s. true;
  is_format_spec = λ s. false;
}

abbrev pub drive : ℕ → StorageDrive
drive size = record { capacity_bytes = some (pos size); health = some "CRITICAL" }

abbrev pub drives : List StorageDrive
drives = drive 480 ∷ drive 480 ∷ drive 960 ∷ []

abbrev pub hardware : Hardware
hardware = record {
  cpu = record { sockets = pos 2 };
  memory = record { total_bytes = pos 64; modules = record { health = some "WARNING" } ∷ [] };
  storage = record { total_bytes = pos 1920; drives = drives };
  gpus = record { health = none; uncorrectable_error_count = some (pos 3) } ∷ [];
  power = record { psus = record { health = some "DOWN" } ∷ [] };
}

abbrev pub server : Server
server = record {
  name = "db-10TB-01";
  hardware = hardware;
  network = record { interfaces = record { link_state = up } ∷ record { link_state = down } ∷ [] };
  connectivity = record {
    attachments = [];
    facts = record {
      fabric_paths_total = 2;
      fabric_paths_up = 1;
      fabric_paths_down = 1;
      fabrics_present = "A" ∷ [];
    };
  };
}

abbrev pub lower : String → String
lower s = s

abbrev pub facts : Facts
facts = extract_facts lower server

abbrev pub stored : StoredServer
stored = record { server = server; vendor = dell; source_provider = none; site_id = some "site-a" }
