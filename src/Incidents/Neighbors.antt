-- ===== src/Incidents/Neighbors.antt =====
-- internal/incidents/incidents.go: `numericSuffix`, `resolveNeighbors` and `dedupe`.
pub mod Distinct
use vyomm.Prelude.{
  ℕ, ◌+◌, ◌-◌, ◌*◌, ◌%◌, ◌^◌, String, Bool, true, false, not, ◌&&◌, ◌||◌, Option, none, some, List,
  [], ◌∷◌, ◌++◌, ◌==◌, ltb, leb, eqb, if◌then◌else◌,
}
use vyomm.Prelude.Text.{concat, codes, decimal_02}
use vyomm.NameSet.{contains}
use vyomm.GoMap
use vyomm.GoMap.{GoMap}
use vyomm.Telemetry.{DeviceTelemetry}

-- The loop of `numericSuffix`; `n` is the 64-bit pattern of Go's `int`.
unfoldable pub suffix_loop : ℕ → Bool → List ℕ → ℕ × Bool
suffix_loop n found [] = (n, found)
suffix_loop n found (r ∷ rs) =
    let digit = leb b'0' r && leb r b'9' in
    suffix_loop (if digit then (n * 10 + (r - b'0')) % 2 ^ 64 else n)
      (if digit then true else found) rs

unfoldable pub numeric_suffix : String → ℕ
unfolding suffix_loop
numeric_suffix hostname =
    let (n, found) = suffix_loop 0 false (codes hostname) in if not found then 1 else n

-- `index + offset`, and 1 where that is below 1 as a signed number.
unfoldable pub candidate_index : ℕ → ℕ → ℕ
candidate_index index offset =
    let i = (index + offset) % 2 ^ 64 in if eqb i 0 || leb (2 ^ 63) i then 1 else i

-- `fmt.Sprintf("%s-%02d", prefix, candidateIndex)`
unfoldable pub neighbor_name : String → ℕ → String
neighbor_name prefix i = concat prefix (concat "-" (decimal_02 i))

abbrev pub prefixes : List String
prefixes = "rtr" ∷ "sw" ∷ "fw" ∷ "gw" ∷ []

-- The patterns of 0, 1 and -1.
abbrev pub offsets : List ℕ
offsets = 0 ∷ 1 ∷ (2 ^ 64 - 1) ∷ []

-- `dedupe`: the first occurrences, in order.
unfoldable pub dedupe_from : List String → List String → List String
dedupe_from seen [] = []
dedupe_from seen (v ∷ vs) =
    let skip = dedupe_from seen vs in
    let keep = dedupe_from (v ∷ seen) vs in if contains seen v then skip else v ∷ keep

unfoldable pub dedupe : List String → List String
unfolding dedupe_from contains
dedupe vs = dedupe_from [] vs

-- `out` and `seen`.
abbrev pub Search : Type 0 → Type 0
Search F = List (DeviceTelemetry F) × List String

module _ {F : Type 0} where
  -- A device found under a name that was not seen.
  unfoldable pub accept : String → Option (DeviceTelemetry F) → Search F → Search F
  accept name none (out, seen) = (out, seen)
  accept name (some n) (out, seen) = (out ++ (n ∷ []), name ∷ seen)

  module _ (by_host : GoMap (DeviceTelemetry F)) (index : ℕ) where
    -- One round of the inner loop.
    unfoldable pub visit : String → ℕ → Search F → Search F
    unfolding accept
    visit prefix offset (out, seen) =
        let name = neighbor_name prefix (candidate_index index offset) in
        if contains seen name then (out, seen) else accept name (GoMap.get by_host name) (out, seen)

    unfoldable pub visit_offsets : String → List ℕ → Search F → Search F
    visit_offsets prefix [] s = s
    visit_offsets prefix (o ∷ os) s = visit_offsets prefix os (visit prefix o s)

    unfoldable pub visit_prefixes : List String → Search F → Search F
    visit_prefixes [] s = s
    visit_prefixes (p ∷ ps) s = visit_prefixes ps (visit_offsets p offsets s)

  unfoldable pub resolve_neighbors :
      DeviceTelemetry F → GoMap (DeviceTelemetry F) → List (DeviceTelemetry F)
  unfolding visit visit_offsets visit_prefixes
  resolve_neighbors d by_host =
      (visit_prefixes by_host (numeric_suffix d.hostname) prefixes ([], d.hostname ∷ [])).0
