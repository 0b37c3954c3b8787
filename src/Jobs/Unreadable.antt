-- ===== src/Jobs/Unreadable.antt =====
-- internal/jobs/failure.go: UnreadableFailureDetail, which is encodeFailure for a job with no type,
-- a failed status, and an output that is whole and opens with its verdict.
use tend.Prelude.{◌&&◌, [], ◌∷◌, ◌==◌, if◌then◌else◌}
use tend.Core.Tail.{Text, max_output_tail_lines, is_empty, tail_lines, head_lines}
use tend.Event.{Detail, no_detail, failure, no_failure}

-- `strings.TrimLeft(s, "\n")`.
unfoldable pub trim_newlines : Text → Text
trim_newlines [] = []
trim_newlines (c ∷ s) = let rest = trim_newlines s in if c == 10 then rest else c ∷ s

-- `strings.Cut(s, "\n\n")`: what stands before the first empty line, and what stands after it.
unfoldable pub cut_paragraph : Text → Text × Text
cut_paragraph [] = ([], [])
cut_paragraph (c ∷ []) = (c ∷ [], [])
cut_paragraph (c ∷ d ∷ s) =
    let (before, after) = cut_paragraph (d ∷ s) in
    if (c == 10) && (d == 10) then ([], s) else (c ∷ before, after)

unfoldable pub unreadable_failure_detail : Text → Detail
unfolding trim_newlines cut_paragraph tail_lines head_lines
unreadable_failure_detail out =
    let (verdict, rest) = cut_paragraph (trim_newlines out) in
    let shown = head_lines verdict max_output_tail_lines in
    let end = tail_lines rest max_output_tail_lines in
    if is_empty shown && is_empty end
    then no_detail
    else failure (record no_failure { verdict = shown; output = end })
