-- ===== src/Runbooks.antt =====
-- internal/runbooks/runbooks.go: Retrieve, over the documents that Load has read.
pub mod Ranking
pub mod Loading
use vyomm.Prelude.{
  ℕ, zero, suc, ◌+◌, String, Bool, true, false, not, ◌||◌, List, [], ◌∷◌, map, ◌==◌, ltb, eqb,
  if◌then◌else◌, length, take,
}
use vyomm.Prelude.Text.{text_ltb}
use vyomm.GoStrings.{fields, has_text, spaces_for_underscores}
use vyomm.GoInt.{ℤ, pos, negsuc}

abbrev pub match_method : String
match_method = "keyword-overlap"

pub record RunbookResult : Type 0 where
  pub title : String
  pub source : String
  pub content : String
  pub match_method_used : String
  pub score : ℕ

pub record Document : Type 0 where
  pub title : String
  pub source : String
  pub content : String
  pub lower : String
  pub stem : String

pub record Scored : Type 0 where
  pub doc : Document
  pub score : ℕ

-- `to_lower` is strings.ToLower.
unfoldable pub query_terms : (String → String) → String → List String
query_terms to_lower query = fields (to_lower (spaces_for_underscores query))

-- The loop over the terms.
unfoldable pub score_of : Document → List String → ℕ
score_of d [] = 0
score_of d (term ∷ terms) =
    let rest = score_of d terms in
    if term == ""
    then rest
    else if has_text d.lower term || has_text d.stem term
    then suc rest
    else rest

-- The comparison of the sort.
unfoldable pub ranks_before : Scored → Scored → Bool
ranks_before a b =
    if not (eqb a.score b.score) then ltb b.score a.score else text_ltb a.doc.source b.doc.source

-- `sort.SliceStable`: an element stays before the later ones that do not rank before it.
unfoldable pub insert_ranked : Scored → List Scored → List Scored
unfolding ranks_before
insert_ranked x [] = x ∷ []
insert_ranked x (y ∷ ys) =
    let rest = insert_ranked x ys in if ranks_before y x then y ∷ rest else x ∷ y ∷ ys

unfoldable pub rank_all : List Scored → List Scored
rank_all [] = []
rank_all (x ∷ xs) = insert_ranked x (rank_all xs)

unfoldable pub score_all : List Document → List String → List Scored
score_all docs terms = map (λ d. record { doc = d; score = score_of d terms }) docs

-- `if limit <= 0 || limit > len(candidates) { limit = len(candidates) }`
unfoldable pub limit_to : ℤ → ℕ → ℕ
limit_to (pos zero) n = n
limit_to (pos (suc k)) n = if ltb n (suc k) then n else suc k
limit_to (negsuc k) n = n

unfoldable pub result_of : Scored → RunbookResult
result_of c = record {
  title = c.doc.title;
  source = c.doc.source;
  content = c.doc.content;
  match_method_used = match_method;
  score = c.score;
}

unfoldable pub retrieve : (String → String) → List Document → String → ℤ → List RunbookResult
retrieve to_lower docs query limit =
    let ranked = rank_all (score_all docs (query_terms to_lower query)) in
    map result_of (take (limit_to limit (length ranked)) ranked)
