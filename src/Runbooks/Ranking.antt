-- ===== src/Runbooks/Ranking.antt =====
-- What Retrieve returns, and in which order.
use mathlib.Core.List.Perm
use vyomm.Prelude.{
  ℕ, zero, suc, ◌<◌, String, ◌≡◌, ◌⊎◌, refl, ap, ◌∙◌, true, false, inl, inr, Bool-cases, List, [],
  ◌∷◌, map, Perm, arith, length, take, All, min,
}
use vyomm.Prelude.Text.{text_ltb}
use vyomm.Prelude.TextOrder.{text_ltb_asym, text_ltb_trans}
use vyomm.GoInt.{ℤ, pos, negsuc}
use vyomm.Runbooks.{
  Document, Scored, ranks_before, insert_ranked, rank_all, score_all, query_terms, limit_to,
  result_of, retrieve,
}

-- A document may stand before another: it scores above it, or it scores the same and the other's
-- file name is not below its own.
abbrev pub MayPrecede : Scored → Scored → Type 0
MayPrecede x y =
    (y.score < x.score) ⊎ ((y.score ≡ x.score) × (text_ltb y.doc.source x.doc.source ≡ false))

abbrev pub IsRanked : List Scored → Type 0
IsRanked [] = Unit
IsRanked (x ∷ xs) = All (MayPrecede x) xs × IsRanked xs

MayPrecede-trans : (x y z : Scored) → MayPrecede x y → MayPrecede y z → MayPrecede x z
MayPrecede-trans x y z (inl h) (inl g) = inl (omega arith)
MayPrecede-trans x y z (inl h) (inr (e, g)) = inl (omega arith)
MayPrecede-trans x y z (inr (e, h)) (inl g) = inl (omega arith)
MayPrecede-trans x y z (inr (e, h)) (inr (f, g)) =
    inr (f ∙ e, text_ltb_trans x.doc.source y.doc.source z.doc.source h g)

before-MayPrecede : (a b : Scored) → ranks_before a b ≡ true → MayPrecede a b
unfolding ranks_before
before-MayPrecede a b h = ground (arith, text_ltb_asym a.doc.source b.doc.source)

not_before-MayPrecede : (a b : Scored) → ranks_before a b ≡ false → MayPrecede b a
unfolding ranks_before
not_before-MayPrecede a b h = ground arith

All-insert_ranked :
    (a x : Scored) (ys : List Scored)
    → MayPrecede a x
    → All (MayPrecede a) ys
    → All (MayPrecede a) (insert_ranked x ys)
unfolding insert_ranked
All-insert_ranked a x [] h p = (h, tt)
All-insert_ranked a x (y ∷ ys) h p = elim (Bool-cases (ranks_before y x)) [
  | inl e ↦ rw e (p.0, All-insert_ranked a x ys h p.1)
  | inr e ↦ rw e (h, p)
]

All-MayPrecede :
    (a b : Scored) (ys : List Scored)
    → MayPrecede a b
    → All (MayPrecede b) ys
    → All (MayPrecede a) ys
All-MayPrecede a b [] h p = tt
All-MayPrecede a b (y ∷ ys) h (q, p) = (MayPrecede-trans a b y h q, All-MayPrecede a b ys h p)

insert_ranked-IsRanked :
    (x : Scored) (ys : List Scored) → IsRanked ys → IsRanked (insert_ranked x ys)
unfolding insert_ranked
insert_ranked-IsRanked x [] p = (tt, tt)
insert_ranked-IsRanked x (y ∷ ys) (q, p) = elim (Bool-cases (ranks_before y x)) [
  | inl e ↦
      rw e (All-insert_ranked y x ys (before-MayPrecede y x e) q, insert_ranked-IsRanked x ys p)
  | inr e ↦ let le = not_before-MayPrecede y x e in rw e ((le, All-MayPrecede x y ys le q), (q, p))
]

rank_all-IsRanked : (xs : List Scored) → IsRanked (rank_all xs)
unfolding rank_all
rank_all-IsRanked [] = tt
rank_all-IsRanked (x ∷ xs) = insert_ranked-IsRanked x (rank_all xs) (rank_all-IsRanked xs)

insert_ranked-Perm : (x : Scored) (ys : List Scored) → Perm (insert_ranked x ys) (x ∷ ys)
unfolding insert_ranked
insert_ranked-Perm x [] = Perm.refl _
insert_ranked-Perm x (y ∷ ys) = elim (Bool-cases (ranks_before y x)) [
  | inl e ↦ rw e (Perm.trans (Perm.cons y (insert_ranked-Perm x ys)) (Perm.swap _ _ _))
  | inr e ↦ rw e (Perm.refl _)
]

rank_all-Perm : (xs : List Scored) → Perm (rank_all xs) xs
unfolding rank_all
rank_all-Perm [] = Perm.refl _
rank_all-Perm (x ∷ xs) =
    Perm.trans (insert_ranked-Perm x (rank_all xs)) (Perm.cons x (rank_all-Perm xs))

-- How many of `total` documents a limit lets through: all without a positive limit, and else no
-- more than it says.
abbrev pub allowed : ℤ → ℕ → ℕ
allowed (pos zero) total = total
allowed (pos (suc k)) total = min (suc k) total
allowed (negsuc k) total = total

limit_to-allowed : (limit : ℤ) (n : ℕ) → limit_to limit n ≡ allowed limit n
unfolding limit_to
limit_to-allowed (pos zero) n = refl
limit_to-allowed (pos (suc k)) n = ground arith
limit_to-allowed (negsuc k) n = refl

length-insert_ranked :
    (x : Scored) (ys : List Scored) → length (insert_ranked x ys) ≡ suc (length ys)
unfolding insert_ranked
length-insert_ranked x [] = refl
length-insert_ranked x (y ∷ ys) = ground (arith, length-insert_ranked x ys)

length-rank_all : (xs : List Scored) → length (rank_all xs) ≡ length xs
unfolding rank_all
length-rank_all [] = refl
length-rank_all (x ∷ xs) =
    length-insert_ranked x (rank_all xs) ∙ ap (λ n. suc n) (length-rank_all xs)

length-score_all :
    (docs : List Document) (terms : List String) → length (score_all docs terms) ≡ length docs
unfolding score_all
length-score_all [] terms = refl
length-score_all (d ∷ docs) terms = ap (λ n. suc n) (length-score_all docs terms)

-- The results are the first ones of an order of all scored documents in which scores fall, and those
-- of the same score stand by file name: all of them where the limit is not positive, and else as many
-- as the limit says, or all if there are fewer.
pub retrieve_lem :
    (to_lower : String → String) (docs : List Document) (query : String) (limit : ℤ)
    → (ranked : List Scored) × Perm ranked (score_all docs (query_terms to_lower query))
      × IsRanked ranked
      × (retrieve to_lower docs query limit
          ≡ map result_of (take (allowed limit (length docs)) ranked))
unfolding retrieve
retrieve_lem to_lower docs query limit =
    let scored = score_all docs (query_terms to_lower query) in
    let total : length (rank_all scored) ≡ length docs =
      length-rank_all scored ∙ length-score_all docs (query_terms to_lower query) in
    (
      rank_all scored,
      rank_all-Perm scored,
      rank_all-IsRanked scored,
      rw (limit_to-allowed limit (length (rank_all scored)), total) refl,
    )
