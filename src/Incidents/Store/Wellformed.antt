-- ===== src/Incidents/Store/Wellformed.antt =====
-- The invariant of the incident store; an empty store meets it.
use vyomm.Prelude.{
  ℕ, suc, ◌+◌, ◌-◌, ◌<◌, String, ◌≡◌, ◌≢◌, refl, none, some, List, [], length, last?, get_elem?,
}
use vyomm.GoMap
use vyomm.GoMap.{map_laws}
use vyomm.Incidents.{Incident, Decision, status_active}
use vyomm.Incidents.Store.{Store, new_store, or_nil, history, decisions_of}

-- The status that an audit trail leads to.
abbrev pub status_after : List Decision → String
status_after ds = elim (last? ds) [ none ↦ status_active | some d ↦ d.status ]

module _ {F : Type 0} where
  -- The incident `inc` is occurrence number `i`, from 0, of the `n` occurrences of a key.
  pub record IsOccurrence (key : String) (i n : ℕ) (id : String) (inc : Incident F) : Type 0 where
    pub own_id : inc.id ≡ id
    pub own_key : inc.occurrence_key ≡ key
    pub numbered : inc.occurrence_sequence ≡ i + 1
    pub closed : suc i < n → inc.status ≢ status_active

  -- Histories name stored incidents, which are numbered in order and closed but for the last;
  -- stored incidents stand in their history; and the decisions lead to the status.
  pub record IsValid (s : Store F) : Type 0 where
    pub present :
        (key : String) (i : ℕ) (id : String)
        → get_elem? (history s key) i ≡ some id
        → GoMap.get s.incidents id ≢ none
    pub occurs :
        (key : String) (i : ℕ) (id : String) (inc : Incident F)
        → get_elem? (history s key) i ≡ some id
        → GoMap.get s.incidents id ≡ some inc
        → IsOccurrence key i (length (history s key)) id inc
    pub listed :
        (id : String) (inc : Incident F)
        → GoMap.get s.incidents id ≡ some inc
        → (0 < inc.occurrence_sequence)
          × (get_elem? (history s inc.occurrence_key) (inc.occurrence_sequence - 1) ≡ some id)
    pub audited :
        (id : String) (inc : Incident F)
        → GoMap.get s.incidents id ≡ some inc
        → inc.status ≡ status_after (decisions_of s id)
    pub no_orphans : (id : String) → GoMap.get s.incidents id ≡ none → decisions_of s id ≡ []

  pub new_store-IsValid : IsValid (new_store {F = F})
  unfolding new_store history decisions_of or_nil GoMap.get GoMap.empty
  new_store-IsValid = record {
    present = λ key i id h. cc;
    occurs = λ key i id inc h g. cc;
    listed = λ id inc g. cc;
    audited = λ id inc g. cc;
    no_orphans = λ id g. refl;
  }
