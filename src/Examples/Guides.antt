-- ===== src/Examples/Guides.antt =====
-- A runbook query, and the pruning interval of a day's retention.
use vyomm.Prelude.{String, ◌≡◌, List, [], ◌∷◌, map, Perm, take}
use vyomm.GoInt.{pos}
use vyomm.Runbooks.{Document, Scored, score_all, query_terms, result_of, retrieve}
use vyomm.Runbooks.Ranking.{IsRanked, allowed, retrieve_lem}

abbrev same_case : String → String
same_case text = text

abbrev guides : List Document
guides =
    record {
      title = "Bgp Flap";
      source = "bgp_flap.md";
      content = "Check timers.";
      lower = "check timers.";
      stem = "bgp_flap";
    }
    ∷ record {
      title = "Memory Leak";
      source = "memory_leak.md";
      content = "Restart.";
      lower = "restart.";
      stem = "memory_leak";
    }
    ∷ []

retrieve_lem_example :
    (ranked : List Scored) × Perm ranked (score_all guides (query_terms same_case "memory_leak"))
    × IsRanked ranked
    × (retrieve same_case guides "memory_leak" (pos 1)
        ≡ map result_of (take (allowed (pos 1) 2) ranked))
retrieve_lem_example = retrieve_lem same_case guides "memory_leak" (pos 1)
