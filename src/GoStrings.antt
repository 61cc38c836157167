-- ===== src/GoStrings.antt =====
-- What the program uses of packages strings, strconv and unicode.
use Prim.Native.Char.{code}
use vyomm.Prelude.{
  ℕ, ◌+◌, ◌-◌, ◌*◌, ◌^◌, String, Bool, true, false, ◌&&◌, ◌||◌, Option, none, some, List, [], ◌∷◌,
  ◌==◌, leb, ltb, eqb, if◌then◌else◌,
}
use vyomm.Prelude.Text.{codes, concat}
use vyomm.GoInt.{ℤ, pos, neg}

-- `unicode.IsSpace`
unfoldable pub is_space : ℕ → Bool
is_space c =
    (leb 9 c && leb c 13)
    || eqb c 32
    || eqb c 0x85
    || eqb c 0xA0
    || eqb c 0x1680
    || (leb 0x2000 c && leb c 0x200A)
    || eqb c 0x2028
    || eqb c 0x2029
    || eqb c 0x202F
    || eqb c 0x205F
    || eqb c 0x3000

-- `strings.Split(v, ",")`: the first part and the others.
unfoldable pub split_commas : String → String × List String
split_commas String.[] = ("", [])
split_commas (String.◌∷◌ c s) =
    let (first, others) = split_commas s in
    if eqb (code c) b',' then ("", first ∷ others) else (String.◌∷◌ c first, others)

unfoldable pub trim_left : String → String
unfolding is_space
trim_left String.[] = ""
trim_left (String.◌∷◌ c s) =
    let rest = trim_left s in if is_space (code c) then rest else String.◌∷◌ c s

-- A space goes if nothing is left after it.
unfoldable pub trim_right : String → String
unfolding is_space
trim_right String.[] = ""
trim_right (String.◌∷◌ c s) =
    let rest = trim_right s in if is_space (code c) && rest == "" then "" else String.◌∷◌ c rest

-- `strings.TrimSpace`
unfoldable pub trim_space : String → String
unfolding trim_left trim_right
trim_space s = trim_right (trim_left s)

-- A text of digits after those of `n`.
unfoldable pub digits_from : ℕ → List ℕ → Option ℕ
digits_from n [] = some n
digits_from n (c ∷ cs) =
    let rest = digits_from (n * 10 + (c - b'0')) cs in
    if leb b'0' c && leb c b'9' then rest else none

unfoldable pub unsigned : List ℕ → Option ℕ
unfolding digits_from
unsigned [] = none
unsigned (c ∷ cs) = digits_from 0 (c ∷ cs)

abbrev below : ℕ → Option ℕ → Option ℕ
below bound none = none
below bound (some n) = if ltb n bound then some n else none

abbrev signed : (ℕ → ℤ) → Option ℕ → Option ℤ
signed sign none = none
signed sign (some n) = some (sign n)

-- `strconv.Atoi`: `none` is its error, also out of the range of `int`.
unfoldable pub atoi : List ℕ → Option ℤ
unfolding unsigned
atoi [] = none
atoi (c ∷ cs) =
    if eqb c b'-'
    then signed neg (below (2 ^ 63 + 1) (unsigned cs))
    else if eqb c b'+'
    then signed pos (below (2 ^ 63) (unsigned cs))
    else signed pos (below (2 ^ 63) (unsigned (c ∷ cs)))

-- `strings.Fields`: the word that a text starts with, empty at a space, and the later words.
unfoldable pub words : String → String × List String
words String.[] = ("", [])
words (String.◌∷◌ c s) =
    let (w, ws) = words s in
    if is_space (code c) then ("", (if w == "" then ws else w ∷ ws)) else (String.◌∷◌ c w, ws)

unfoldable pub fields : String → List String
unfolding words is_space
fields s = let (w, ws) = words s in if w == "" then ws else w ∷ ws

unfoldable pub starts_with : List ℕ → List ℕ → Bool
starts_with s [] = true
starts_with [] (d ∷ ds) = false
starts_with (c ∷ s) (d ∷ ds) = eqb c d && starts_with s ds

-- `strings.Contains`
unfoldable pub has_part : List ℕ → List ℕ → Bool
unfolding starts_with
has_part [] part = starts_with [] part
has_part (c ∷ s) part = starts_with (c ∷ s) part || has_part s part

unfoldable pub has_text : String → String → Bool
unfolding has_part
has_text s part = has_part (codes s) (codes part)

-- `strings.ReplaceAll(s, "_", " ")`
unfoldable pub spaces_for_underscores : String → String
spaces_for_underscores String.[] = ""
spaces_for_underscores (String.◌∷◌ c s) =
    let rest = spaces_for_underscores s in
    if eqb (code c) b'_' then concat " " rest else String.◌∷◌ c rest
