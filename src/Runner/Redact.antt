-- ===== src/Runner/Redact.antt =====
-- `redact` of worlds/runner.py.
use mathlib.Core.List.{foldl}
use personal_world.Prelude.{ℕ, zero, suc, ◌≤◌, List, [], ◌∷◌, take, length, Text, arith}

-- Python's text operations that `redact` calls.
pub record TextOps : Type 0 where
  -- `out.replace(secret, REDACTED)`
  pub blot : Text → Text → Text
  -- the four `pattern.sub(REDACTED, out)`, in turn
  pub blot_patterns : Text → Text
  -- `" ".join(out.split())`
  pub squeeze : Text → Text

abbrev pub max_note : ℕ
max_note = 300

-- One round of the loop: an empty secret is passed over.
unfoldable pub blot_secret : TextOps → Text → Text → Text
blot_secret ops out [] = out
blot_secret ops out (c ∷ secret) = ops.blot (c ∷ secret) out

unfoldable pub redact : TextOps → Text → List Text → Text
redact ops text secrets =
    take max_note (ops.squeeze (ops.blot_patterns (foldl (blot_secret ops) text secrets)))

pub length-take-le {ℓ} : {A : Type ℓ} (n : ℕ) (xs : List A) → length (take n xs) ≤ n
length-take-le zero xs = omega arith
length-take-le (suc n) [] = omega arith
length-take-le (suc n) (x ∷ xs) = omega (arith, length-take-le n xs)
