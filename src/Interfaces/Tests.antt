-- ===== src/Interfaces/Tests.antt =====
-- Runs of the model of src/unet/misc.cc at concrete inputs.
use nccl_exts.Prelude.{ℕ, ◌≡◌, ◌↔◌, true, false, List, [], ◌∷◌}
use nccl_exts.Interfaces.{match_if}
use nccl_exts.Interfaces.Matches.{Matches, match_if-Matches}

-- "mlx5" and "mlx".
abbrev name : List ℕ
name = 109 ∷ 108 ∷ 120 ∷ 53 ∷ []

abbrev begins : List ℕ
begins = 109 ∷ 108 ∷ 120 ∷ []

match_if-Matches_example : (match_if name begins false ≡ true) ↔ Matches false name begins
match_if-Matches_example = match_if-Matches name begins false

-- "a,b:1".
abbrev listed : List ℕ
listed = 97 ∷ 44 ∷ 98 ∷ 58 ∷ 49 ∷ []
