-- ===== src/Incidents/Rules.antt =====
-- internal/incidents/incidents.go: the rules and `Correlate`.
pub mod FirstMatch
pub mod Affected
use vyomm.Prelude.{
  ℕ, String, Bool, ◌&&◌, ◌||◌, Option, none, some, List, [], ◌∷◌, ◌++◌, map, ◌==◌, if◌then◌else◌,
  take,
}
use vyomm.Prelude.Text.{concat}
use vyomm.Float64.{Float64, ◌+F◌, ◌*F◌, ◌/F◌, ◌<F◌, ◌>F◌, int}
use vyomm.GoMap
use vyomm.GoMap.{GoMap}
use vyomm.Telemetry.{DeviceTelemetry, role_router, role_switch, role_firewall, role_gateway}
use vyomm.Incidents.{Candidate, severity_high, severity_critical}
use vyomm.Incidents.Neighbors.{resolve_neighbors, dedupe}

pub record Rule (F : Type 0) : Type 0 where
  pub root_cause : String
  pub severity : String
  pub sla_mins : ℕ
  pub action : String
  pub matches : DeviceTelemetry F → List (DeviceTelemetry F) → Bool

unfoldable pub occurrence_key : String → String → String
occurrence_key root_cause hostname = concat root_cause (concat ":" hostname)

-- `byHost`: a later device of the same name replaces an earlier one.
unfoldable pub index_hosts :
    {F : Type 0} → List (DeviceTelemetry F) → GoMap (DeviceTelemetry F) → GoMap (DeviceTelemetry F)
index_hosts [] m = m
index_hosts (d ∷ ds) m = index_hosts ds (GoMap.put m d.hostname d)

module _ {F : Type 0} ⦃fl : Float64 F⦄ where
  open fl use {dec, trunc}

  unfoldable pub max_from : (DeviceTelemetry F → F) → F → List (DeviceTelemetry F) → F
  max_from f m [] = m
  max_from f m (n ∷ ns) = max_from f (if f n >F m then f n else m) ns

  unfoldable pub max_latency : List (DeviceTelemetry F) → F → F
  unfolding max_from
  max_latency [] fallback = fallback
  max_latency (n ∷ ns) fallback = max_from (λ d. d.latency_ms) n.latency_ms ns

  unfoldable pub max_loss : List (DeviceTelemetry F) → F → F
  unfolding max_from
  max_loss [] fallback = fallback
  max_loss (n ∷ ns) fallback = max_from (λ d. d.packet_loss_percent) n.packet_loss_percent ns

  unfoldable pub congestion : Rule F
  unfolding max_latency max_loss
  congestion = record {
    root_cause = "Congestion Incident";
    severity = severity_critical;
    sla_mins = 22;
    action = "Drain traffic from the affected path and apply QoS shaping.";
    matches = λ d n.
        d.role == role_router
        && d.cpu_percent >F int 95
        && max_latency n d.latency_ms >F int 100
        && max_loss n d.packet_loss_percent >F int 5;
  }

  unfoldable pub firewall_saturation : Rule F
  firewall_saturation = record {
    root_cause = "Firewall Saturation";
    severity = severity_high;
    sla_mins = 18;
    action = "Move inspection-heavy flows to standby firewall and verify policy hit counters.";
    matches = λ d n.
        d.role == role_firewall
        && (d.cpu_percent >F int 90 || d.bandwidth_percent >F int 92)
        && d.latency_ms >F int 90;
  }

  unfoldable pub memory_leak : Rule F
  memory_leak = record {
    root_cause = "Memory Leak";
    severity = severity_high;
    sla_mins = 22;
    action = "Fail over services, collect process table, and restart the affected network daemon.";
    matches = λ d n. d.memory_percent >F int 94 && d.cpu_percent >F int 80;
  }

  unfoldable pub packet_loss_degradation : Rule F
  packet_loss_degradation = record {
    root_cause = "Packet Loss Degradation";
    severity = severity_high;
    sla_mins = 22;
    action = "Check interface errors, optical levels, and upstream queue drops.";
    matches = λ d n. d.packet_loss_percent >F int 7 && d.latency_ms >F int 120;
  }

  unfoldable pub switch_overheating : Rule F
  switch_overheating = record {
    root_cause = "Switch Overheating";
    severity = severity_high;
    sla_mins = 12;
    action = "Shift access load, validate fan telemetry, and inspect rack airflow.";
    matches = λ d n. d.temperature_c >F int 84 && d.role == role_switch;
  }

  unfoldable pub bgp_edge_instability : Rule F
  bgp_edge_instability = record {
    root_cause = "BGP Edge Instability";
    severity = severity_critical;
    sla_mins = 15;
    action = "Prefer secondary edge route, verify BGP timers, and compare route dampening events.";
    matches =
        λ d n. d.role == role_gateway && d.latency_ms >F int 140 && d.packet_loss_percent >F int 4;
  }

  unfoldable pub rules : List (Rule F)
  unfolding congestion firewall_saturation memory_leak packet_loss_degradation switch_overheating
      bgp_edge_instability
  rules =
      congestion ∷ firewall_saturation ∷ memory_leak ∷ packet_loss_degradation ∷ switch_overheating
      ∷ bgp_edge_instability ∷ []

  abbrev min_f : F → F → F
  min_f a b = if a <F b then a else b

  unfoldable pub round2 : F → F
  round2 v = trunc (v *F int 100 +F dec 5 1) /F int 100

  unfoldable pub confidence_of : DeviceTelemetry F → F
  unfolding round2
  confidence_of d = round2 (
      dec 78 2
      +F min_f (dec 18 2)
          ((d.cpu_percent +F d.latency_ms /F int 2 +F d.packet_loss_percent *F int 6) /F int 1000))

  -- The device and its first two neighbours.
  unfoldable pub affected_devices : DeviceTelemetry F → List (DeviceTelemetry F) → List String
  affected_devices d neighbors = dedupe (d.hostname ∷ map (λ n. n.hostname) (take 2 neighbors))

  unfoldable pub candidate_of : DeviceTelemetry F → List (DeviceTelemetry F) → Rule F → Candidate F
  candidate_of d neighbors r = record {
    occurrence_key = occurrence_key r.root_cause d.hostname;
    root_cause = r.root_cause;
    severity = r.severity;
    affected_devices = affected_devices d neighbors;
    confidence = confidence_of d;
    sla_breach_minutes = r.sla_mins;
    recommended_action = r.action;
  }

  -- The loop over the rules, which a match leaves.
  unfoldable pub match_rules :
      DeviceTelemetry F → List (DeviceTelemetry F) → List (Rule F) → List (Candidate F)
  match_rules d neighbors [] = []
  match_rules d neighbors (r ∷ rs) =
      let rest = match_rules d neighbors rs in
      if r.matches d neighbors then candidate_of d neighbors r ∷ [] else rest

  -- The loop over the devices.
  unfoldable pub correlate_from :
      GoMap (DeviceTelemetry F) → List (DeviceTelemetry F) → List (Candidate F)
  correlate_from by_host [] = []
  correlate_from by_host (d ∷ ds) =
      match_rules d (resolve_neighbors d by_host) rules ++ correlate_from by_host ds

  unfoldable pub correlate : List (DeviceTelemetry F) → List (Candidate F)
  unfolding index_hosts
  correlate devices = correlate_from (index_hosts devices GoMap.empty) devices
