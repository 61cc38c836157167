-- ===== src/Runbooks/Loading.antt =====
-- internal/runbooks/runbooks.go: Load.
pub mod Ordered
use Prim.Native.Char.{code}
use mathlib.Core.Option
use vyomm.Prelude.{
  ℕ, ◌-◌, String, Bool, true, false, not, ◌&&◌, ◌||◌, Option, none, some, List, [], ◌∷◌, map, ◌==◌,
  eqb, leb, ltb, if◌then◌else◌,
}
use vyomm.Prelude.Text.{concat, text_ltb}
use vyomm.Prelude.Sorting.{sort_by}
use vyomm.Runbooks.{Document}

-- An entry of the directory, and what os.ReadFile gives of it, or none where it fails.
pub record DirEntry : Type 0 where
  pub name : String
  pub is_dir : Bool
  pub content : Option String

-- `strings.HasSuffix(name, ".md")` and `strings.TrimSuffix(name, ".md")`: the stem, if there is one.
unfoldable pub stem_of : String → Option String
stem_of String.[] = none
stem_of (String.◌∷◌ c s) =
    let rest = stem_of s in
    if String.◌∷◌ c s == ".md" then some "" else Option.map (λ stem. String.◌∷◌ c stem) rest

-- `strings.FieldsFunc` at the runes `_` and `-`: the word that a text starts with, and the others.
unfoldable pub split_stem : String → String × List String
split_stem String.[] = ("", [])
split_stem (String.◌∷◌ c s) =
    let (w, ws) = split_stem s in
    if eqb (code c) b'_' || eqb (code c) b'-'
    then ("", (if w == "" then ws else w ∷ ws))
    else (String.◌∷◌ c w, ws)

unfoldable pub stem_words : String → List String
unfolding split_stem
stem_words stem = let (w, ws) = split_stem stem in if w == "" then ws else w ∷ ws

abbrev join_from : String → List String → String
join_from w [] = w
join_from w (v ∷ vs) = concat w (concat " " (join_from v vs))

-- `strings.Join(words, " ")`
unfoldable pub join_words : List String → String
join_words [] = ""
join_words (w ∷ ws) = join_from w ws

-- `capital` is `strings.ToUpper(w[:1]) + w[1:]`, whose first slice is a byte.
unfoldable pub title_case : (String → String) → String → String
unfolding stem_words join_words
title_case capital stem = join_words (map capital (stem_words stem))

-- `sort.Slice` by file name.
unfoldable pub sort_by_source : List Document → List Document
sort_by_source docs = sort_by (λ d. d.source) docs

module _ (to_lower capital : String → String) where
  unfoldable pub document_of : String → String → String → Document
  unfolding title_case
  document_of name stem content = record {
    title = title_case capital stem;
    source = name;
    content = content;
    lower = to_lower content;
    stem = to_lower stem;
  }

  -- The loop over the entries; none is the error of os.ReadFile.
  unfoldable pub read_entries : List DirEntry → Option (List Document)
  unfolding document_of stem_of
  read_entries [] = some []
  read_entries (e ∷ es) =
      let rest = read_entries es in
      elim (if e.is_dir then none else stem_of e.name) [
        | none ↦ rest
        | some stem ↦ elim e.content [
          | none ↦ none
          | some content ↦ Option.map (λ docs. document_of e.name stem content ∷ docs) rest
        ]
      ]

  -- `Load`; the entries are none where os.ReadDir fails.
  unfoldable pub load_runbooks : Option (List DirEntry) → Option (List Document)
  unfolding read_entries sort_by_source
  load_runbooks none = none
  load_runbooks (some entries) = Option.map sort_by_source (read_entries entries)
