-- ===== src/Regime/Smoothing.antt =====
-- The batch smoothing of labels: `persistence_smooth` of
-- src/system2/artifact_sync/regime_mapping.py. The list that it writes into is built here from left
-- to right, one segment of equal labels after another.
pub mod Segments
use system2executor.Prelude.{
  ℕ, zero, suc, Bool, true, false, ◌&&◌, not, Option, none, some, String, List, [], ◌∷◌, ◌++◌, ltb,
  str_eq, length, replicate, if◌then◌else◌,
}

-- The inner `while`: how many of the labels from here on equal `x`, and the labels after those
unfoldable pub span : String → List String → ℕ × List String
span x [] = (0, [])
span x (y ∷ ys) = let (n, rest) = span x ys in if str_eq y x then (suc n, rest) else (0, y ∷ ys)

-- The label of a segment of `k` bars: a short one takes the smoothed label before it, if any.
abbrev pub segment_label : ℕ → ℕ → Option String → String → String
segment_label min_bars k none x = x
segment_label min_bars k (some before) x = if ltb k min_bars then before else x

-- The outer `while`, with the smoothed label before the bars that are left; each round takes one
-- bar at least, so as many rounds as there are bars are enough
unfoldable pub smooth_from : ℕ → ℕ → Option String → List String → List String
smooth_from zero min_bars before labels = []
smooth_from (suc rounds) min_bars before [] = []
smooth_from (suc rounds) min_bars before (x ∷ xs) =
    let (n, rest) = span x xs in
    let label = segment_label min_bars (suc n) before x in
    replicate (suc n) label ++ smooth_from rounds min_bars (some label) rest

-- The last step: a first segment of `k` bars that is short, and not all there is, takes the label
-- after it
abbrev pub first_segment : ℕ → String → ℕ → List String → List String
first_segment min_bars x k [] = replicate k x
first_segment min_bars x k (y ∷ rest) = replicate k (if ltb k min_bars then y else x) ++ y ∷ rest

abbrev pub lengthen_first : ℕ → List String → List String
lengthen_first min_bars [] = []
lengthen_first min_bars (x ∷ xs) =
    let (n, rest) = span x xs in first_segment min_bars x (suc n) rest

-- `persistence_smooth`
unfoldable pub persistence_smooth : ℕ → List String → List String
unfolding smooth_from span
persistence_smooth min_bars labels =
    lengthen_first min_bars (smooth_from (length labels) min_bars none labels)
