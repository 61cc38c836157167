-- ===== src/Incidents/Rules/Affected.antt =====
-- The devices that a candidate names.
use vyomm.Prelude.{String, ◌≡◌, refl, sym, subst, List, [], ◌∷◌, arith, eq_iff, take}
use vyomm.Float64.{Float64}
use vyomm.GoMap
use vyomm.GoMap.{GoMap, get-put, get-empty}
use vyomm.Telemetry.{DeviceTelemetry}
use vyomm.NameSet.{contains, IsDistinct}
use vyomm.Incidents.Neighbors.{dedupe, resolve_neighbors}
use vyomm.Incidents.Neighbors.Distinct.{
  IsKeyed, hosts, resolve_neighbors-IsDistinct, dedupe_from-distinct,
}
use vyomm.Incidents.Rules.{affected_devices, index_hosts}

module _ {F : Type 0} where
  put-IsKeyed :
      (m : GoMap (DeviceTelemetry F)) (d : DeviceTelemetry F)
      → IsKeyed m
      → IsKeyed (GoMap.put m d.hostname d)
  put-IsKeyed m d h k n = simp get-put (ground (arith, h k n, eq_iff d.hostname k))

  index_hosts-IsKeyed :
      (ds : List (DeviceTelemetry F)) (m : GoMap (DeviceTelemetry F))
      → IsKeyed m
      → IsKeyed (index_hosts ds m)
  unfolding index_hosts
  index_hosts-IsKeyed [] m h = h
  index_hosts-IsKeyed (d ∷ ds) m h =
      index_hosts-IsKeyed ds (GoMap.put m d.hostname d) (put-IsKeyed m d h)

  first_two :
      (name : String) (ns : List (DeviceTelemetry F))
      → IsDistinct (name ∷ hosts ns)
      → IsDistinct (name ∷ hosts (take 2 ns))
  unfolding contains
  first_two name [] h = h
  first_two name (n ∷ []) h = h
  first_two name (n ∷ m ∷ ns) h = ground arith

  module _ ⦃fl : Float64 F⦄ where
    -- Within a batch the affected devices of a candidate are the device and its first two neighbours,
    -- in this order: all three differ, so that nothing is dropped as a repetition.
    affected_devices_lem :
        (ds : List (DeviceTelemetry F)) (d : DeviceTelemetry F)
        → let neighbors = resolve_neighbors d (index_hosts ds GoMap.empty) in
          (affected_devices d neighbors ≡ d.hostname ∷ hosts (take 2 neighbors))
          × IsDistinct (affected_devices d neighbors)
    unfolding affected_devices dedupe
    affected_devices_lem ds d =
        let by_host = index_hosts ds GoMap.empty in
        let neighbors = resolve_neighbors d by_host in
        let keyed =
          index_hosts-IsKeyed ds GoMap.empty (λ k n e. cc (get-empty {V = DeviceTelemetry F} k)) in
        let few = first_two d.hostname neighbors (resolve_neighbors-IsDistinct d by_host keyed) in
        let kept =
          dedupe_from-distinct [] (d.hostname ∷ hosts (take 2 neighbors)) few
            (λ v m. unfold contains in refl) in
        (kept, subst IsDistinct (sym kept) few)
