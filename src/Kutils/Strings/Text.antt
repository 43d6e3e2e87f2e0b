-- ===== src/Kutils/Strings/Text.antt =====
-- C strings: bytes other than 0, and behind them a terminator.
use punix.Base.{ℕ, ◌<◌, List, ◌∷◌, ◌++◌, All}

abbrev pub IsText : List ℕ → Type 0
IsText t = All (λ c. 0 < c) t

-- A buffer that starts with the string `t` and goes on with `rest`.
abbrev pub cstr : List ℕ → List ℕ → List ℕ
cstr t rest = t ++ (0 ∷ rest)
