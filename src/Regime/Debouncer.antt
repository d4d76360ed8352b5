-- ===== src/Regime/Debouncer.antt =====
-- The smoothing of live labels: `OnlineDebouncer` of src/system2/artifact_sync/live_regime.py.
pub mod History
use system2executor.Prelude.{
  ℕ, ◌+◌, Bool, true, false, ◌||◌, Option, none, some, String, List, [], ◌∷◌, leb, str_eq,
  if◌then◌else◌,
}
use system2executor.Prelude.Float.{Float, le_float}

-- `OnlineDebouncer`
pub record OnlineDebouncer : Type 0 where
  pub window : ℕ
  pub high_conf : Float
  pub published : Option String
  pub candidate : Option String
  pub count : ℕ

abbrev pub new_debouncer : ℕ → Float → OnlineDebouncer
new_debouncer window high_conf = record {
  window = window;
  high_conf = high_conf;
  published = none;
  candidate = none;
  count = 0;
}

abbrev pub is_label : Option String → String → Bool
is_label none label = false
is_label (some l) label = str_eq l label

abbrev adopt : String → OnlineDebouncer → String × OnlineDebouncer
adopt label d = (label, record d { published = some label; candidate = none; count = 0 })

-- A label different from the published one: it was seen `count` times in a row, this one included
abbrev weigh : String → String → Float → ℕ → OnlineDebouncer → String × OnlineDebouncer
weigh current raw_label raw_prob count d =
    if leb d.window count || le_float d.high_conf raw_prob
    then adopt raw_label d
    else (current, record d { candidate = some raw_label; count = count })

abbrev update_published :
    Option String → String → Float → OnlineDebouncer → String × OnlineDebouncer
update_published none raw_label raw_prob d = adopt raw_label d
update_published (some current) raw_label raw_prob d =
    if str_eq raw_label current
    then adopt raw_label d
    else weigh current raw_label raw_prob
        (if is_label d.candidate raw_label then d.count + 1 else 1) d

-- `update`
unfoldable pub update : String → Float → OnlineDebouncer → String × OnlineDebouncer
update raw_label raw_prob d = update_published d.published raw_label raw_prob d
