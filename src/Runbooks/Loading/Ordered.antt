-- ===== src/Runbooks/Loading/Ordered.antt =====
-- What Load returns, and in which order.
use mathlib.Core.List.Perm
use mathlib.Core.Option
use mathlib.Core.List.{mem-cons_self, mem-cons_of_mem}
use vyomm.Prelude.{
  String, ◌≡◌, ◌≢◌, refl, sym, subst, inl, inr, Option-cases, Option, none, some, List, [], ◌∷◌,
  ◌++◌, Mem, Perm, All, if◌then◌else◌,
}
use vyomm.Prelude.Sorting.{IsSortedBy, sort_by-IsSortedBy, sort_by-Perm}
use vyomm.Runbooks.{Document}
use vyomm.Runbooks.Loading.{
  DirEntry, stem_of, document_of, read_entries, sort_by_source, load_runbooks,
}

-- No document's file name is below an earlier one's.
abbrev pub IsBySource : List Document → Type 0
IsBySource docs = IsSortedBy (λ d. d.source) docs

-- The stem of an entry that Load reads.
abbrev pub runbook_stem : DirEntry → Option String
runbook_stem e = if e.is_dir then none else stem_of e.name

-- A file that Load reads can be read.
abbrev pub IsReadable : DirEntry → Type 0
IsReadable e = runbook_stem e ≢ none → e.content ≢ none

module _ (to_lower capital : String → String) where
  abbrev one_document : DirEntry → Option String → Option String → List Document
  one_document e (some stem) (some content) = document_of to_lower capital e.name stem content ∷ []
  one_document e _ _ = []

  -- The documents of the files that end in `.md`, in the order of the directory.
  abbrev pub documents_of : List DirEntry → List Document
  documents_of [] = []
  documents_of (e ∷ es) = one_document e (runbook_stem e) e.content ++ documents_of es

  -- A directory is read in full, or one of its files cannot be read.
  abbrev pub IsRead : List DirEntry → Option (List Document) → Type 0
  IsRead entries none =
      (e : DirEntry) × Mem e entries × (runbook_stem e ≢ none) × (e.content ≡ none)
  IsRead entries (some docs) = All IsReadable entries × Perm docs (documents_of entries)

  -- The same, and the documents are ordered.
  abbrev pub IsLoaded : List DirEntry → Option (List Document) → Type 0
  IsLoaded entries none =
      (e : DirEntry) × Mem e entries × (runbook_stem e ≢ none) × (e.content ≡ none)
  IsLoaded entries (some docs) =
      All IsReadable entries × Perm docs (documents_of entries) × IsBySource docs

  skipped :
      (e : DirEntry) (es : List DirEntry) (rest : Option (List Document))
      → runbook_stem e ≡ none
      → IsRead es rest
      → IsRead (e ∷ es) rest
  skipped e es none n (u, m, named, failed) = (u, mem-cons_of_mem e m, named, failed)
  skipped e es (some docs) n (readable, p) = ((λ q. absurd (q n), readable), rw n p)

  kept :
      (e : DirEntry) (es : List DirEntry) (stem content : String) (rest : Option (List Document))
      → runbook_stem e ≡ some stem
      → e.content ≡ some content
      → IsRead es rest
      → IsRead
          (e ∷ es)
          (Option.map (λ docs. document_of to_lower capital e.name stem content ∷ docs) rest)
  kept e es stem content none n c (u, m, named, failed) = (u, mem-cons_of_mem e m, named, failed)
  kept e es stem content (some docs) n c (readable, p) =
      ((λ q r. cc, readable), rw (n, c) (Perm.cons _ p))

  read_entries-IsRead :
      (entries : List DirEntry) → IsRead entries (read_entries to_lower capital entries)
  unfolding read_entries
  read_entries-IsRead [] = (tt, Perm.refl _)
  read_entries-IsRead (e ∷ es) =
      let rest = read_entries-IsRead es in
      elim (Option-cases (runbook_stem e)) [
        | inl n ↦
            let q : read_entries to_lower capital (e ∷ es) ≡ read_entries to_lower capital es =
              rw (n, read_entries) refl in
            subst (IsRead (e ∷ es)) (sym q) (skipped e es (read_entries to_lower capital es) n rest)
        | inr (stem, n) ↦ elim (Option-cases e.content) [
          | inl c ↦
              let q : read_entries to_lower capital (e ∷ es) ≡ none =
                rw (n, c, read_entries) refl in
              subst (IsRead (e ∷ es)) (sym q) (e, mem-cons_self, (λ q. cc), c)
          | inr (content, c) ↦
              let q : read_entries to_lower capital (e ∷ es)
                  ≡ Option.map (λ docs. document_of to_lower capital e.name stem content ∷ docs)
                      (read_entries to_lower capital es) =
                rw (n, c, read_entries) refl in
              subst (IsRead (e ∷ es)) (sym q)
                (kept e es stem content (read_entries to_lower capital es) n c rest)
        ]
      ]

  sorted-IsLoaded :
      (entries : List DirEntry) (docs : Option (List Document))
      → IsRead entries docs
      → IsLoaded entries (Option.map sort_by_source docs)
  unfolding sort_by_source
  sorted-IsLoaded entries none h = h
  sorted-IsLoaded entries (some docs) (readable, p) = (
    readable,
    Perm.trans (sort_by-Perm (λ d. d.source) docs) p,
    sort_by-IsSortedBy (λ d. d.source) docs,
  )

  -- Load of a directory that can be listed: it fails only if some file of a name that ends in `.md`
  -- cannot be read; else all of these can be read, and it returns exactly their documents, ordered by
  -- file name, whatever the order of the directory.
  pub load_runbooks_lem :
      (entries : List DirEntry) → IsLoaded entries (load_runbooks to_lower capital (some entries))
  unfolding load_runbooks
  load_runbooks_lem entries =
      sorted-IsLoaded entries (read_entries to_lower capital entries) (read_entries-IsRead entries)
