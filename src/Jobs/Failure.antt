-- ===== src/Jobs/Failure.antt =====
-- internal/jobs/failure.go: failureDetail and encodeFailure.
use tend.Prelude.{
  Bool, true, false, not, ◌&&◌, Option, none, some, [], ◌∷◌, ◌==◌, ◌-◌, if◌then◌else◌, length, take,
  drop,
}
use tend.Prelude.Int.{ℤ, pos, negsuc, leb_ℤ, ◌/ℤ◌}
use tend.Clock.{second}
use tend.Core.Tail.{Text, max_output_tail_lines, is_empty, tail_lines, head_lines}
use tend.Event.{Detail, no_detail, failure, no_failure, FailureDetail, RunStatus, timed_out}
use tend.Jobs.{Job, JobType, http, has_spec}
use tend.Jobs.Unreadable.{trim_newlines, cut_paragraph}
use tend.Jobs.Limits.{saturated_seconds, default_timeout}

abbrev pub truncation_marker : Text
truncation_marker =
    10 ∷ 46 ∷ 46 ∷ 46 ∷ 32 ∷ 91 ∷ 111 ∷ 117 ∷ 116 ∷ 112 ∷ 117 ∷ 116 ∷ 32 ∷ 116 ∷ 114 ∷ 117 ∷ 110
    ∷ 99 ∷ 97 ∷ 116 ∷ 101 ∷ 100 ∷ 32 ∷ 97 ∷ 116 ∷ 32 ∷ 49 ∷ 77 ∷ 105 ∷ 66 ∷ 93 ∷ []

-- "HTTP ".
abbrev http_start : Text
http_start = 72 ∷ 84 ∷ 84 ∷ 80 ∷ 32 ∷ []

-- `strings.HasPrefix` and `==` on texts.
unfoldable pub starts_with : Text → Text → Bool
starts_with s [] = true
starts_with [] (c ∷ v) = false
starts_with (b ∷ s) (c ∷ v) = (b == c) && starts_with s v

unfoldable pub same_text : Text → Text → Bool
same_text [] [] = true
same_text [] (c ∷ v) = false
same_text (b ∷ s) [] = false
same_text (b ∷ s) (c ∷ v) = (b == c) && same_text s v

-- `strings.TrimSuffix(s, suffix)`.
unfoldable pub trim_suffix : Text → Text → Text
unfolding same_text
trim_suffix s suffix =
    let n = length s - length suffix in if same_text (drop n s) suffix then take n s else s

-- dropLastLine: none stands for no newline.
unfoldable pub before_last_newline : Text → Option Text
before_last_newline [] = none
before_last_newline (c ∷ s) = elim (before_last_newline s) [
  | none ↦ if c == 10 then some [] else none
  | some r ↦ some (c ∷ r)
]

unfoldable pub drop_last_line : Text → Text
unfolding before_last_newline
drop_last_line s = elim (before_last_newline s) [ none ↦ [] | some r ↦ r ]

abbrev pub is_timed_out : RunStatus → Bool
is_timed_out timed_out = true
is_timed_out _ = false

abbrev pub is_http : JobType → Bool
is_http http = true
is_http _ = false

abbrev is_nothing : ℤ → Bool
is_nothing (pos n) = n == 0
is_nothing (negsuc n) = false

-- `d == (FailureDetail{})`, of a detail with no streak.
abbrev pub is_no_failure : FailureDetail → Bool
is_no_failure d =
    is_empty d.verdict
    && is_empty d.output
    && not d.truncated
    && is_nothing d.timeout_seconds
    && is_nothing d.http_status

-- The seconds that a job which timed out had.
unfoldable pub shown_timeout : ℤ → ℤ
unfolding saturated_seconds ◌/ℤ◌
shown_timeout n =
    let timeout = saturated_seconds n in
    (if leb_ℤ timeout (pos 0) then pos default_timeout else timeout) /ℤ second

-- encodeFailure, of a job that is an HTTP check or not, with its timeout in seconds.
unfoldable pub encode_failure : Bool → ℤ → RunStatus → ℤ → Text → Bool → Bool → Detail
unfolding starts_with trim_suffix drop_last_line shown_timeout trim_newlines cut_paragraph
    tail_lines head_lines
encode_failure http_check timeout status exit_code out truncated verdict_first =
    let is_code = http_check && starts_with out http_start in
    let out1 = if is_code then [] else out in
    let out2 = if truncated then drop_last_line (trim_suffix out1 truncation_marker) else out1 in
    let (verdict, rest) = cut_paragraph (trim_newlines out2) in
    let d : FailureDetail = record no_failure {
      http_status = if is_code then exit_code else pos 0;
      truncated = truncated;
      verdict = if verdict_first then head_lines verdict max_output_tail_lines else [];
      output = tail_lines (if verdict_first then rest else out2) max_output_tail_lines;
      timeout_seconds = if is_timed_out status then shown_timeout timeout else pos 0;
    } in
    if is_no_failure d then no_detail else failure d

-- failureDetail; givesVerdict is true of the types that have settings.
unfoldable pub failure_detail : Job → RunStatus → ℤ → Text → Bool → Detail
unfolding encode_failure
failure_detail j status exit_code out truncated =
    encode_failure (is_http j.job_type) j.timeout_seconds status exit_code out truncated
      (has_spec j.job_type)
