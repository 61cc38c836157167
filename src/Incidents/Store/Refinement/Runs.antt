-- ===== src/Incidents/Store/Refinement/Runs.antt =====
-- Runs of the incident store are runs of the specification.
use mathlib.Core.Option
use vyomm.Prelude.{String, ◌≡◌, refl, sym, subst, List, [], ◌∷◌}
use vyomm.GoMap
use vyomm.Incidents.Store.{
  Store, new_store, upsert, decide, history, or_nil, latest_occurrence, is_open,
}
use vyomm.Incidents.Store.Wellformed.{IsValid, new_store-IsValid}
use vyomm.Incidents.Store.Recurrence.{
  Step, Reach, upsert_step, decide_step, here, next, Reach-IsValid,
}
use vyomm.Incidents.Store.Refinement.{
  no_fault, Call, upserted, answered, SpecStep, SpecReach, start, more, view,
}
use vyomm.Incidents.Store.Refinement.Reporting.{upsert-SpecStep}
use vyomm.Incidents.Store.Refinement.Settling.{decide-SpecStep}

new_store-view : (F : Type 0) (k : String) → view (new_store {F = F}) k ≡ no_fault
unfolding new_store history or_nil latest_occurrence is_open GoMap.get GoMap.empty
new_store-view F k = refl

module _ {F : Type 0} (sha1_hex : String → String) where
  -- The call of a step, with the answer that the code gives.
  abbrev pub call_of : (s t : Store F) → Step sha1_hex s t → Call
  call_of s t (upsert_step c now fresh e) =
      let (_, inc, created) = upsert sha1_hex s c now in
      upserted c.occurrence_key inc.id inc.occurrence_sequence created
  call_of s t (decide_step id status actor now closing e) =
      answered id (Option.map (λ x. x.1) (decide s id status actor now).1)

  -- The calls of a run, the last one first.
  abbrev pub calls_of : {s t : Store F} → Reach sha1_hex s t → List Call
  calls_of here = []
  calls_of (next {t = t} {u = u} r st) = call_of t u st ∷ calls_of r

  Step-SpecStep :
      (s t : Store F) (st : Step sha1_hex s t)
      → IsValid s
      → SpecStep (view s) (view t) (call_of s t st)
  Step-SpecStep s t (upsert_step c now fresh e) v =
      subst
        (λ x.
          let (_, inc, created) = upsert sha1_hex s c now in
          SpecStep (view s) (view x)
            (upserted c.occurrence_key inc.id inc.occurrence_sequence created))
        (sym e) (upsert-SpecStep sha1_hex s c now v fresh)
  Step-SpecStep s t (decide_step id status actor now closing e) v =
      subst
        (λ x.
          SpecStep (view s) (view x)
            (answered id (Option.map (λ y. y.1) (decide s id status actor now).1)))
        (sym e) (decide-SpecStep s id status actor now v closing)

  -- Every run of the incident store from an empty one, by upserts whose created ID is not in use and
  -- decisions with another status than `active`, is call by call, with the answers that the code gives,
  -- a run of the specification: an upsert says `created` exactly when the fault has no open occurrence,
  -- and then returns the next number and a new ID that joins the fault's history, while one of an open
  -- fault returns its last ID and number and changes no history; a decision says `wasActive` exactly
  -- when it names the open last occurrence of a fault, which it closes, and else opens and closes
  -- nothing; and it fails exactly when the ID was never given out.
  pub Reach-SpecReach :
      {s : Store F} (r : Reach sha1_hex new_store s) → SpecReach (calls_of r) (view s)
  Reach-SpecReach here = start (new_store-view F)
  Reach-SpecReach (next {t = t} {u = u} r st) =
      more (Reach-SpecReach r) (Step-SpecStep t u st (Reach-IsValid sha1_hex new_store-IsValid r))
