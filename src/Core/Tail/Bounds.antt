-- ===== src/Core/Tail/Bounds.antt =====
-- How long the tail of an output is.
use tend.Prelude.{ℕ, ◌+◌, ◌≡◌, [], ◌∷◌, ◌==◌, if◌then◌else◌}
use tend.Core.Tail.{Text}

-- The line breaks of a text.
unfoldable pub newlines : Text → ℕ
newlines [] = 0
newlines (c ∷ s) = (if c == 10 then 1 else 0) + newlines s

abbrev IsLine : Text → Type 0
IsLine t = newlines t ≡ 0
