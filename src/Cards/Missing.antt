-- ===== src/Cards/Missing.antt =====
-- What a field of a card shows: one that was not found is unknown, never none or 0.
use personal_world.Prelude.{ℕ, true, false, none, some, List, [], ◌∷◌, ◌≡◌, ◌≢◌, ◌⊎◌, codes, Text}
use personal_world.Value.{Value, arr, Items}
use personal_world.Tx.{Result, ok, err}
use personal_world.Mapping.Path.{Digits, PathError, mapping_error}
use personal_world.Mapping.Resolve.{Resolved, resolve, count_of, has_wildcard, items}
use personal_world.Runner.Fetch.{Raised, path_raised}
use personal_world.Config.Files.Objects.{number, text, count, CardField}
use personal_world.Cards.States.{ShowOps, FieldValue, no_match, joined, or_none, texts}

-- The document is the list of these values.
abbrev pub IsListOf : Value → List Value → Type 0
IsListOf v vs = (inner : Items) × (v ≡ arr inner) × (items inner ≡ vs)

-- Nothing to show in what the path reaches: it does not exist, or a number is asked for of what
-- is no list, or a path without a wildcard reaches no value.
abbrev pub ReachesNothing : CardField → Resolved → Type 0
ReachesNothing f res =
    (res.found ≡ false)
    ⊎ (((f.format ≡ count) × (count_of res (codes f.path) ≡ none))
        ⊎ ((f.format ≢ count) × (has_wildcard (codes f.path) ≡ false) × (res.values ≡ [])))

-- A raw value and its text by the field's format: how many values there are, as a number; or with
-- a wildcard the list of the values, and their texts or "none"; or else the only value, or the
-- list of several.
abbrev pub ShownAs : ShowOps → CardField → ℕ → Resolved → Value → Text → Type 0
ShownAs ops f now res v t =
    ((f.format ≡ count)
      × ((n : ℕ) × (count_of res (codes f.path) ≡ some n) × (v ≡ ops.whole n))
      × (t ≡ ops.format_value v number f.unit now))
    ⊎ ((f.format ≢ count)
        × (((has_wildcard (codes f.path) ≡ true)
              × IsListOf v res.values
              × (t ≡ or_none (joined (texts ops f now res.values))))
            ⊎ ((has_wildcard (codes f.path) ≡ false)
                × ((res.values ≡ v ∷ [])
                    ⊎ (((w : Value) × (x : Value) × (rest : List Value) × (res.values
                            ≡ w ∷ x ∷ rest))
                        × IsListOf v res.values))
                × (t ≡ ops.format_value v f.format f.unit now))))

abbrev pub Shows : ShowOps → CardField → ℕ → Resolved → FieldValue → Type 0
Shows ops f now res x =
    ((x ≡ no_match) × ReachesNothing f res)
    ⊎ ((res.found ≡ true) × ((v : Value) × (x.raw ≡ some v) × ShownAs ops f now res v x.text))

-- What the field is, or what is raised, by what its path reaches
abbrev pub FieldOutcome :
    ShowOps → Digits → Value → CardField → ℕ → Result Raised FieldValue → Type 0
FieldOutcome ops d doc f now (err e) =
    (p : PathError) × (e ≡ path_raised p)
    × (resolve d doc (codes f.path) ≡ err p)
    × (p ≢ mapping_error)
FieldOutcome ops d doc f now (ok x) =
    ((x ≡ no_match) × (resolve d doc (codes f.path) ≡ err mapping_error))
    ⊎ ((res : Resolved) × (resolve d doc (codes f.path) ≡ ok res) × Shows ops f now res x)
