-- ===== src/Cards/Keys.antt =====
-- `slug`, `_unique_slug` and `_field_keys` of worlds/cards.py.
use personal_world.Prelude.{
  ℕ, ◌+◌, Text, Bool, true, false, Option, none, some, List, [], ◌∷◌, ◌++◌, ◌&&◌, ◌||◌, ◌==◌,
  nat_eq, leb, Eq, codes, same_text, same_text_iff, dict_get, dict_put, if◌then◌else◌,
}

-- What Python's str gives
pub record SlugOps : Type 0 where
  pub tidy : Text → Text  -- `.strip().lower()`
  pub number : ℕ → Text  -- `{n}`

instance abbrev pub text_eq : Eq Text
text_eq = record { beq = same_text; beq_iff = same_text_iff }

abbrev in_key : ℕ → Bool
in_key c = (leb b'a' c && leb c b'z') || (leb b'0' c && leb c b'9')

-- `[^a-z0-9]+` replaced by a dash; `inside` tells that the last character was one that is replaced.
unfoldable pub dashed : Bool → Text → Text
dashed inside [] = []
dashed inside (c ∷ t) =
    let keep = dashed false t in
    let skip = dashed true t in if in_key c then c ∷ keep else if inside then skip else b'-' ∷ skip

-- `.strip("-")`, at the left and at the right end
unfoldable pub strip_left : Text → Text
strip_left [] = []
strip_left (c ∷ t) = let rest = strip_left t in if c == b'-' then rest else c ∷ t

abbrev put_unless : ℕ → Text → Text
put_unless c [] = if c == b'-' then [] else c ∷ []
put_unless c (d ∷ t) = c ∷ d ∷ t

unfoldable pub strip_right : Text → Text
strip_right [] = []
strip_right (c ∷ t) = put_unless c (strip_right t)

-- `slug`
unfoldable pub slug : SlugOps → Text → Text
unfolding dashed strip_left strip_right
slug ops label = strip_right (strip_left (dashed false (ops.tidy label)))

abbrev or_field : Text → Text
or_field [] = codes "field"
or_field (c ∷ t) = c ∷ t

abbrev count_of_base : Option ℕ → ℕ
count_of_base none = 0
count_of_base (some n) = n

abbrev numbered : SlugOps → Text → ℕ → Text
numbered ops base count = if count == 0 then base else base ++ (b'-' ∷ ops.number (count + 1))

-- `_unique_slug`: the key, and `taken` as it leaves it
unfoldable pub unique_slug : SlugOps → Text → List (Text × ℕ) → Text × List (Text × ℕ)
unfolding slug dict_get dict_put
unique_slug ops label taken =
    let base = or_field (slug ops label) in
    let count = count_of_base (dict_get base taken) in
    (numbered ops base count, dict_put base (count + 1) taken)

-- `_field_keys`, from the labels
unfoldable pub field_keys : SlugOps → List Text → List (Text × ℕ) → List Text
unfolding unique_slug
field_keys ops [] taken = []
field_keys ops (label ∷ labels) taken =
    let p = unique_slug ops label taken in p.0 ∷ field_keys ops labels p.1
