-- ===== src/Runner/Redact.antt =====
-- redact of internal/jobs/runner.go. A text is its bytes; sorting and searching are the standard
-- library's (slices.SortFunc, strings.Index).
pub mod Cover
pub mod Build
pub mod Exact
use tend.Prelude.{
  ℕ, zero, suc, ◌+◌, ◌-◌, Bool, true, false, ◌&&◌, Option, none, some, List, [], ◌∷◌, ◌++◌, ◌==◌,
  ltb, leb, if◌then◌else◌, take, drop, length, max,
}
use tend.Core.Tail.{Text, is_empty}

abbrev pub Span : Type 0
Span = ℕ × ℕ

-- `strings.HasPrefix(s, v)`.
unfoldable pub has_prefix : Text → Text → Bool
has_prefix s [] = true
has_prefix [] (c ∷ v) = false
has_prefix (b ∷ s) (c ∷ v) = (b == c) && has_prefix s v

-- `strings.Index(s, v)`.
unfoldable pub index : Text → Text → Option ℕ
unfolding has_prefix
index [] v = if has_prefix [] v then some 0 else none
index (b ∷ s) v =
    let rest = index s v in
    if has_prefix (b ∷ s) v then some 0 else elim rest [ none ↦ none | some j ↦ some (suc j) ]

-- A match is added to the spans, of which the last one comes first.
unfoldable pub add_span : Span → List Span → List Span
add_span (start, end) [] = (start, end) ∷ []
add_span (start, end) ((a, b) ∷ spans) =
    if leb start b && leb a start then (a, max b end) ∷ spans else (start, end) ∷ (a, b) ∷ spans

-- The loop over the matches of one value from `i` on; the fuel is more than the bytes left.
unfoldable pub matches : ℕ → Text → Text → ℕ → List Span → List Span
unfolding index add_span
matches zero s v i spans = spans
matches (suc fuel) s v i spans = elim (index (drop i s) v) [
  | none ↦ spans
  | some j ↦ matches fuel s v (suc (i + j)) (add_span (i + j, i + j + length v) spans)
]

unfoldable pub all_matches : Text → List Text → List Span → List Span
unfolding matches
all_matches s [] spans = spans
all_matches s (v ∷ vs) spans =
    all_matches s vs (if is_empty v then spans else matches (suc (length s)) s v 0 spans)

unfoldable pub insert_span : Span → List Span → List Span
insert_span p [] = p ∷ []
insert_span p (q ∷ qs) = if leb p.0 q.0 then p ∷ q ∷ qs else q ∷ insert_span p qs

unfoldable pub sort_spans : List Span → List Span
unfolding insert_span
sort_spans [] = []
sort_spans (p ∷ ps) = insert_span p (sort_spans ps)

-- "***".
abbrev pub stars : Text
stars = 42 ∷ 42 ∷ 42 ∷ []

-- The loop that writes the text out, from `last` on, with `cur` the span to come.
unfoldable pub build : Text → ℕ → Span → List Span → Text
build s last cur [] = take (cur.0 - last) (drop last s) ++ (stars ++ drop cur.1 s)
build s last cur (sp ∷ spans) =
    let joined = build s last (cur.0, max cur.1 sp.1) spans in
    let rest = build s cur.1 sp spans in
    if leb sp.0 cur.1 then joined else take (cur.0 - last) (drop last s) ++ (stars ++ rest)

unfoldable pub redact : Text → List Text → Text
unfolding all_matches sort_spans build
redact s values = elim (sort_spans (all_matches s values [])) [
  | [] ↦ s
  | cur ∷ spans ↦ build s 0 cur spans
]
