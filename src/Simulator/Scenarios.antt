-- ===== src/Simulator/Scenarios.antt =====
-- cmd/vyomm-simulator/main.go: what the service finds in the batches of each scenario.
use mathlib.Core.Option
use vyomm.Prelude.{
  ℕ, ◌+◌, ◌≤◌, ◌<◌, ◌^◌, String, ◌≡◌, refl, true, false, none, some, List, [], ◌∷◌, map, arith,
}
use vyomm.Float64.{Float64, HasDecimals, int}
use vyomm.GoInt.{ℤ}
use vyomm.GoTime.{Time, is_zero}
use vyomm.Telemetry.{DeviceTelemetry, validate, out_of_percent, role_valid, status_valid}
use vyomm.GoMap
use vyomm.NameSet.{contains}
use vyomm.Prelude.Text.{decimal, decimal_02, digits_text, leading_zeros}
use vyomm.Incidents.Neighbors.{
  resolve_neighbors, visit, visit_offsets, visit_prefixes, accept, numeric_suffix, suffix_loop,
  neighbor_name, candidate_index,
}
use vyomm.Incidents.Rules.{
  correlate, correlate_from, index_hosts, match_rules, rules, congestion, firewall_saturation,
  memory_leak, packet_loss_degradation, switch_overheating, bgp_edge_instability, max_latency,
  max_loss, candidate_of,
}
use vyomm.Detection.{detect, check_all, check_device, checks}
use vyomm.Simulator.{device, base_device, scenario_device, generate}

module _ {F : Type 0} ⦃fl : Float64 F⦄ (short : HasDecimals F) where
  open fl use {dec, of_int}

  -- The signals of the anomalies of a batch.
  abbrev pub signals_of : (String → String) → Time → List (DeviceTelemetry F) → List String
  signals_of sha1_hex now ds = map (λ a. a.signal) (detect sha1_hex now ds)

  abbrev pub causes_of : List (DeviceTelemetry F) → List String
  causes_of ds = map (λ c. c.root_cause) (correlate ds)

  below : (n m : ℕ) → n < m → m < 10 ^ 12 → fl.lt (dec n 0) (dec m 0) ≡ true
  below n m l b = short.dec_lt n 0 m 0 (omega arith) (omega arith) (omega arith) b (omega arith)

  above : (n m : ℕ) → m ≤ n → n < 10 ^ 12 → fl.lt (dec n 0) (dec m 0) ≡ false
  above n m l b = short.dec_not_lt n 0 m 0 (omega arith) (omega arith) b (omega arith) (omega arith)

  module _ (at : Time) (cpu memory latency loss places : ℕ) where
    abbrev sample : DeviceTelemetry F
    sample =
        device "rtr-01" "router" (dec cpu 0) (dec memory 0) (int 20) (int 50) (dec latency 0)
          (dec loss places) at

    alone : resolve_neighbors sample (index_hosts (sample ∷ []) GoMap.empty) ≡ []
    unfolding resolve_neighbors visit visit_offsets visit_prefixes accept numeric_suffix suffix_loop
        neighbor_name candidate_index index_hosts device GoMap.get GoMap.put GoMap.empty contains
        decimal_02 decimal digits_text leading_zeros
    alone = refl

    accepted :
        cpu ≤ 100
        → memory ≤ 100
        → loss < 10 ^ 12
        → latency < 10 ^ 12
        → places ≤ 1
        → is_zero at ≡ false
        → validate sample ≡ none
    unfolding validate out_of_percent role_valid status_valid device
    accepted c m lo la p z =
        rw
          (
            above cpu 0 (omega arith) (omega arith),
            above 100 cpu c (omega arith),
            above memory 0 (omega arith) (omega arith),
            above 100 memory m (omega arith),
            above 20 0 (omega arith) (omega arith),
            above 100 20 (omega arith) (omega arith),
            short.dec_not_lt loss places 0 0 p (omega arith) lo (omega arith) (omega arith),
            above latency 0 (omega arith) la,
            z,
          )
          refl

    -- A sample that is accepted, and what its batch shows.
    abbrev Shows : (String → String) → Time → List String → List String → Type 0
    Shows sha1_hex now signals causes =
        (validate sample ≡ none)
        × (signals_of sha1_hex now (sample ∷ []) ≡ signals)
        × (causes_of (sample ∷ []) ≡ causes)

  module _ (sha1_hex : String → String) (now at : Time) (jitter : ℕ) (small : jitter < 10)
      (dated : is_zero at ≡ false) where
    healthy-Shows : Shows at (40 + jitter) 40 15 1 1 sha1_hex now [] []
    unfolding detect check_all check_device checks correlate correlate_from match_rules rules
        congestion firewall_saturation memory_leak packet_loss_degradation switch_overheating
        bgp_edge_instability max_latency max_loss device candidate_of
    healthy-Shows = (
      accepted at (40 + jitter) 40 15 1 1 (omega arith) (omega arith) (omega arith) (omega arith)
          (omega arith) dated,
      rw
          (
            below (40 + jitter) 88 (omega arith) (omega arith),
            below 40 86 (omega arith) (omega arith),
            below 15 85 (omega arith) (omega arith),
            short.dec_lt 1 1 35 1 (omega arith) (omega arith) (omega arith) (omega arith)
                (omega arith),
            below 50 72 (omega arith) (omega arith),
          )
          refl,
      rw
          (
            alone at (40 + jitter) 40 15 1 1,
            above 95 (40 + jitter) (omega arith) (omega arith),
            above 94 40 (omega arith) (omega arith),
            short.dec_not_lt 7 0 1 1 (omega arith) (omega arith) (omega arith) (omega arith)
                (omega arith),
            above 84 50 (omega arith) (omega arith),
          )
          refl,
    )

    saturated-Shows : Shows at 98 40 15 1 1 sha1_hex now ("cpu_saturation" ∷ []) []
    unfolding detect check_all check_device checks correlate correlate_from match_rules rules
        congestion firewall_saturation memory_leak packet_loss_degradation switch_overheating
        bgp_edge_instability max_latency max_loss device candidate_of
    saturated-Shows = (
      accepted at 98 40 15 1 1 (omega arith) (omega arith) (omega arith) (omega arith) (omega arith)
          dated,
      rw
          (
            above 98 88 (omega arith) (omega arith),
            below 40 86 (omega arith) (omega arith),
            below 15 85 (omega arith) (omega arith),
            short.dec_lt 1 1 35 1 (omega arith) (omega arith) (omega arith) (omega arith)
                (omega arith),
            below 50 72 (omega arith) (omega arith),
          )
          refl,
      rw
          (
            alone at 98 40 15 1 1,
            below 95 98 (omega arith) (omega arith),
            above 100 15 (omega arith) (omega arith),
            above 94 40 (omega arith) (omega arith),
            short.dec_not_lt 7 0 1 1 (omega arith) (omega arith) (omega arith) (omega arith)
                (omega arith),
            above 84 50 (omega arith) (omega arith),
          )
          refl,
    )

    pressed-Shows : Shows at 85 95 15 1 1 sha1_hex now ("memory_pressure" ∷ []) ("Memory Leak" ∷ [])
    unfolding detect check_all check_device checks correlate correlate_from match_rules rules
        congestion firewall_saturation memory_leak packet_loss_degradation switch_overheating
        bgp_edge_instability max_latency max_loss device candidate_of
    pressed-Shows = (
      accepted at 85 95 15 1 1 (omega arith) (omega arith) (omega arith) (omega arith) (omega arith)
          dated,
      rw
          (
            below 85 88 (omega arith) (omega arith),
            above 95 86 (omega arith) (omega arith),
            below 15 85 (omega arith) (omega arith),
            short.dec_lt 1 1 35 1 (omega arith) (omega arith) (omega arith) (omega arith)
                (omega arith),
            below 50 72 (omega arith) (omega arith),
          )
          refl,
      rw
          (
            alone at 85 95 15 1 1,
            above 95 85 (omega arith) (omega arith),
            below 94 95 (omega arith) (omega arith),
            below 80 85 (omega arith) (omega arith),
          )
          refl,
    )

    slow-Shows : Shows at (40 + jitter) 40 90 1 1 sha1_hex now ("high_latency" ∷ []) []
    unfolding detect check_all check_device checks correlate correlate_from match_rules rules
        congestion firewall_saturation memory_leak packet_loss_degradation switch_overheating
        bgp_edge_instability max_latency max_loss device candidate_of
    slow-Shows = (
      accepted at (40 + jitter) 40 90 1 1 (omega arith) (omega arith) (omega arith) (omega arith)
          (omega arith) dated,
      rw
          (
            below (40 + jitter) 88 (omega arith) (omega arith),
            below 40 86 (omega arith) (omega arith),
            above 90 85 (omega arith) (omega arith),
            short.dec_lt 1 1 35 1 (omega arith) (omega arith) (omega arith) (omega arith)
                (omega arith),
            below 50 72 (omega arith) (omega arith),
          )
          refl,
      rw
          (
            alone at (40 + jitter) 40 90 1 1,
            above 95 (40 + jitter) (omega arith) (omega arith),
            above 94 40 (omega arith) (omega arith),
            short.dec_not_lt 7 0 1 1 (omega arith) (omega arith) (omega arith) (omega arith)
                (omega arith),
            above 84 50 (omega arith) (omega arith),
          )
          refl,
    )

    lossy-Shows :
        Shows at
          (40 + jitter)
          40
          130
          85
          1
          sha1_hex
          now
          ("high_latency" ∷ "packet_loss" ∷ [])
          ("Packet Loss Degradation" ∷ [])
    unfolding detect check_all check_device checks correlate correlate_from match_rules rules
        congestion firewall_saturation memory_leak packet_loss_degradation switch_overheating
        bgp_edge_instability max_latency max_loss device candidate_of
    lossy-Shows = (
      accepted at (40 + jitter) 40 130 85 1 (omega arith) (omega arith) (omega arith) (omega arith)
          (omega arith) dated,
      rw
          (
            below (40 + jitter) 88 (omega arith) (omega arith),
            below 40 86 (omega arith) (omega arith),
            above 130 85 (omega arith) (omega arith),
            short.dec_not_lt 85 1 35 1 (omega arith) (omega arith) (omega arith) (omega arith)
                (omega arith),
            below 50 72 (omega arith) (omega arith),
          )
          refl,
      rw
          (
            alone at (40 + jitter) 40 130 85 1,
            above 95 (40 + jitter) (omega arith) (omega arith),
            above 94 40 (omega arith) (omega arith),
            short.dec_lt 7 0 85 1 (omega arith) (omega arith) (omega arith) (omega arith)
                (omega arith),
            below 120 130 (omega arith) (omega arith),
          )
          refl,
    )

  -- The batch of a scenario is one accepted device, with these anomalies and incidents.
  abbrev pub Finds :
      (ℤ → ℕ) → ℤ → Time → (String → String) → Time → String → List String → List String → Type 0
  Finds int_n seed at sha1_hex now scenario signals causes =
      (d : DeviceTelemetry F) × (Option.map (λ p. p.devices) (generate int_n scenario seed at)
        ≡ some (d ∷ []))
      × (validate d ≡ none)
      × (signals_of sha1_hex now (d ∷ []) ≡ signals)
      × (causes_of (d ∷ []) ≡ causes)

  -- For every seed, each scenario's batch is one device that the service accepts; the healthy baseline
  -- shows no anomaly, and the other four show the anomalies of their names, the lossy one high latency
  -- too; memory pressure is correlated to a memory leak and packet loss to a packet loss degradation,
  -- and the other three to no incident. The arithmetic keeps short constants apart, the generator's
  -- number is below 10, and the time is set.
  pub generate_lem :
      (int_n : ℤ → ℕ) (seed : ℤ) (at : Time) (sha1_hex : String → String) (now : Time)
      → int_n seed < 10
      → is_zero at ≡ false
      → Finds int_n seed at sha1_hex now "healthy-baseline" [] []
        × Finds int_n seed at sha1_hex now "cpu-saturation" ("cpu_saturation" ∷ []) []
        × Finds int_n seed at sha1_hex now "memory-pressure"
            ("memory_pressure" ∷ [])
            ("Memory Leak" ∷ [])
        × Finds int_n seed at sha1_hex now "high-latency" ("high_latency" ∷ []) []
        × Finds int_n seed at sha1_hex now "packet-loss"
            ("high_latency" ∷ "packet_loss" ∷ [])
            ("Packet Loss Degradation" ∷ [])
  unfolding generate scenario_device base_device device
  generate_lem int_n seed at sha1_hex now small dated = (
    (let (valid, signals, causes) = healthy-Shows sha1_hex now at (int_n seed) small dated in
        (
          sample at (40 + int_n seed) 40 15 1 1,
          rw (short.add_int 40 (int_n seed) (omega arith) (omega arith)) refl,
          valid,
          signals,
          causes,
        )),
    (let (valid, signals, causes) = saturated-Shows sha1_hex now at (int_n seed) small dated in
        (sample at 98 40 15 1 1, refl, valid, signals, causes)),
    (let (valid, signals, causes) = pressed-Shows sha1_hex now at (int_n seed) small dated in
        (sample at 85 95 15 1 1, refl, valid, signals, causes)),
    (let (valid, signals, causes) = slow-Shows sha1_hex now at (int_n seed) small dated in
        (
          sample at (40 + int_n seed) 40 90 1 1,
          rw (short.add_int 40 (int_n seed) (omega arith) (omega arith)) refl,
          valid,
          signals,
          causes,
        )),
    (let (valid, signals, causes) = lossy-Shows sha1_hex now at (int_n seed) small dated in
        (
          sample at (40 + int_n seed) 40 130 85 1,
          rw (short.add_int 40 (int_n seed) (omega arith) (omega arith)) refl,
          valid,
          signals,
          causes,
        )),
  )
