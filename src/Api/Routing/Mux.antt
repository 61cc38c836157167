-- ===== src/Api/Routing/Mux.antt =====
-- How http.ServeMux reads the patterns of the table, at clean paths without escapes.
use mathlib.Core.Option
use Prim.Native.Char.{code}
use mathlib.Core.List.{mem-cons_self, mem-cons_of_mem}
use vyomm.Prelude.{
  String, ◌≡◌, ◌⊎◌, refl, sym, subst, ap, ◌∙◌, Bool, true, false, ◌&&◌, ◌||◌, inl, inr, Bool-cases,
  Option-cases, Option, none, some, List, [], ◌∷◌, Mem, arith, ◌==◌, eq_iff, eqb, if◌then◌else◌,
}
use vyomm.Api.Routing.{Route}
use vyomm.Api.Routing.Policy.{pattern_method, IsMux}

-- What follows the method of a pattern.
unfoldable pub pattern_path : String → String
pattern_path String.[] = ""
pattern_path (String.◌∷◌ c rest) =
    let more = pattern_path rest in if eqb (code c) b' ' then rest else more

-- The first segment of a path, and the others.
unfoldable pub segments : String → String × List String
segments String.[] = ("", [])
segments (String.◌∷◌ c rest) =
    let (first, others) = segments rest in
    if eqb (code c) b'/' then ("", first ∷ others) else (String.◌∷◌ c first, others)

abbrev is_wildcard : String → Bool
is_wildcard String.[] = false
is_wildcard (String.◌∷◌ c rest) = eqb (code c) b'{'

-- Whether a path fits a pattern, and what its wildcard binds, or "".
unfoldable pub match_segments : List String → List String → Option String
match_segments [] [] = some ""
match_segments [] (s ∷ ss) = none
match_segments (p ∷ ps) [] = none
match_segments (p ∷ ps) (s ∷ ss) =
    let rest = match_segments ps ss in
    if is_wildcard p
    then if s == "" then none else Option.map (λ v. s) rest
    else if p == s
    then rest
    else none

-- A pattern of GET also serves HEAD.
abbrev pub serves : String → String → Bool
serves pattern method = pattern == method || (pattern == "GET" && method == "HEAD")

unfoldable pub match_route : Route → String → String → Option String
unfolding match_segments segments pattern_path
match_route route method path =
    let (p, ps) = segments (pattern_path route.pattern) in
    let (s, ss) = segments path in
    if serves (pattern_method route.pattern) method then match_segments (p ∷ ps) (s ∷ ss) else none

-- The first route that fits.
unfoldable pub pick_first : List Route → String → String → Option (Route × String)
unfolding match_route
pick_first [] method path = none
pick_first (route ∷ routes) method path =
    let rest = pick_first routes method path in
    elim (match_route route method path) [ none ↦ rest | some value ↦ some (route, value) ]

serves-method :
    (pattern method : String)
    → serves pattern method ≡ true
    → (pattern ≡ method) ⊎ ((pattern ≡ "GET") × (method ≡ "HEAD"))
serves-method pattern method h =
    ground (arith, eq_iff pattern method, eq_iff pattern "GET", eq_iff method "HEAD")

match_route-serves :
    (route : Route) (method path value : String)
    → match_route route method path ≡ some value
    → (pattern_method route.pattern ≡ method)
      ⊎ ((pattern_method route.pattern ≡ "GET") × (method ≡ "HEAD"))
unfolding match_route
match_route-serves route method path value e =
    elim (Bool-cases (serves (pattern_method route.pattern) method)) [
      | inl h ↦ serves-method (pattern_method route.pattern) method h
      | inr h ↦
          let q : match_route route method path ≡ none = rw (h, match_route) refl in
          let r : none ≡ some value = sym q ∙ e in cc
    ]

-- A picked route is one of the table and serves the method of the request.
pick_first-serves :
    (routes : List Route) (method path : String) (route : Route) (value : String)
    → pick_first routes method path ≡ some (route, value)
    → Mem route routes
      × ((pattern_method route.pattern ≡ method)
          ⊎ ((pattern_method route.pattern ≡ "GET") × (method ≡ "HEAD")))
unfolding pick_first
pick_first-serves [] method path route value e = cc
pick_first-serves (r ∷ routes) method path route value e =
    elim (Option-cases (match_route r method path)) [
      | inl n ↦
          let q : pick_first (r ∷ routes) method path ≡ pick_first routes method path =
            rw (n, pick_first) refl in
          let (found, same) = pick_first-serves routes method path route value (sym q ∙ e) in
          (mem-cons_of_mem r found, same)
      | inr (v, m) ↦
          let q : pick_first (r ∷ routes) method path ≡ some (r, v) = rw (m, pick_first) refl in
          let same : r ≡ route = ap (λ o. elim o [ none ↦ r | some x ↦ x.0 ]) (sym q ∙ e) in
          subst
            (λ x.
              Mem x (r ∷ routes)
              × ((pattern_method x.pattern ≡ method)
                  ⊎ ((pattern_method x.pattern ≡ "GET") × (method ≡ "HEAD"))))
            same (mem-cons_self, match_route-serves r method path v m)
    ]

pub pick_first-IsMux : IsMux pick_first
pick_first-IsMux = record {
  chosen =
      λ routes method path route value e. (pick_first-serves routes method path route value e).0;
  same_method =
      λ routes method path route value e. (pick_first-serves routes method path route value e).1;
}
