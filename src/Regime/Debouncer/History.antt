-- ===== src/Regime/Debouncer/History.antt =====
-- What the debouncer publishes, told from the history of its predictions alone.
use system2executor.Prelude.{
  ℕ, ◌+◌, ◌≡◌, refl, true, false, ◌||◌, Option, none, some, String, List, [], ◌∷◌, arith, leb,
  str_eq, str_eq_iff, Bool-cases, Option-cases, inl, inr, subst, if◌then◌else◌,
}
use system2executor.Prelude.Float.{Float, le_float}
use system2executor.Regime.Debouncer.{OnlineDebouncer, new_debouncer, is_label, update}

-- Predictions, the latest first: a raw label with its probability
abbrev pub History : Type 0
History = List (String × Float)

-- How often a label was predicted in a row until now.
abbrev pub streak : String → History → ℕ
streak label [] = 0
streak label ((l, _) ∷ older) = if str_eq l label then streak label older + 1 else 0

abbrev pub choose : ℕ → Float → String → Float → ℕ → Option String → String
choose window high_conf label prob run none = label
choose window high_conf label prob run (some current) =
    if str_eq label current || leb window run || le_float high_conf prob then label else current

-- The specification: the first label is published, and later ones when they are predicted `window`
-- times in a row, or once with a high probability.
unfoldable pub regime_of : ℕ → Float → History → Option String
regime_of window high_conf [] = none
regime_of window high_conf ((label, prob) ∷ older) =
    some (
      choose window high_conf label prob (streak label older + 1)
        (regime_of window high_conf older))

-- The debouncer after the predictions.
unfoldable pub run : ℕ → Float → History → OnlineDebouncer
run window high_conf [] = new_debouncer window high_conf
run window high_conf ((label, prob) ∷ older) = (update label prob (run window high_conf older)).1

abbrev counted : OnlineDebouncer → String → ℕ
counted d label = if is_label d.candidate label then d.count else 0

-- The state stands for the history.
abbrev Follows : Option String → OnlineDebouncer → History → Type 0
Follows none d history = history ≡ []
Follows (some current) d history =
    (label : String) → str_eq label current ≡ false → counted d label ≡ streak label history

record IsRun (window : ℕ) (high_conf : Float) (history : History) (d : OnlineDebouncer)
    : Type 0 where
  window_kept : d.window ≡ window
  high_conf_kept : d.high_conf ≡ high_conf
  published_is : d.published ≡ regime_of window high_conf history
  follows : Follows d.published d history

adopted-Follows :
    (label l : String) (prob : Float) (history : History)
    → str_eq l label ≡ false
    → streak l ((label, prob) ∷ history) ≡ 0
adopted-Follows label l prob history ne = ground (arith, str_eq_iff l label, str_eq_iff label l)

held-Follows :
    (label l : String) (prob : Float) (n : ℕ) (history : History)
    → n ≡ streak label history + 1
    → (if str_eq label l then n else 0) ≡ streak l ((label, prob) ∷ history)
held-Follows label l prob n history e = ground (arith, str_eq_iff label l)

-- How often a label other than the published one was predicted in a row, with this prediction
run_length :
    (label : String) (d : OnlineDebouncer) (history : History)
    → counted d label ≡ streak label history
    → (if is_label d.candidate label then d.count + 1 else 1) ≡ streak label history + 1
run_length label d history h = ground arith

start-IsRun :
    (window : ℕ) (high_conf : Float) (history : History) (label : String) (prob : Float)
    (d : OnlineDebouncer)
    → d.published ≡ none
    → IsRun window high_conf history d
    → IsRun window high_conf ((label, prob) ∷ history) (update label prob d).1
unfolding update regime_of
start-IsRun window high_conf history label prob d first h = rw first (record {
  window_kept = h.window_kept;
  high_conf_kept = h.high_conf_kept;
  published_is = ground (arith, h.published_is, first);
  follows = λ l ne. ground (arith, adopted-Follows label l prob history ne);
})

same-IsRun :
    (window : ℕ) (high_conf : Float) (history : History) (label current : String) (prob : Float)
    (d : OnlineDebouncer)
    → d.published ≡ some current
    → str_eq label current ≡ true
    → IsRun window high_conf history d
    → IsRun window high_conf ((label, prob) ∷ history) (update label prob d).1
unfolding update regime_of
same-IsRun window high_conf history label current prob d on same h =
    rw (on, same)
      (record {
        window_kept = h.window_kept;
        high_conf_kept = h.high_conf_kept;
        published_is = ground (arith, h.published_is, on, same);
        follows = λ l ne. ground (arith, adopted-Follows label l prob history ne);
      })

-- A prediction of another label than the published one, at a streak that is known.
other-IsRun :
    (window : ℕ) (high_conf : Float) (history : History) (label current : String) (prob : Float)
    (d : OnlineDebouncer)
    → d.published ≡ some current
    → str_eq label current ≡ false
    → (if is_label d.candidate label then d.count + 1 else 1) ≡ streak label history + 1
    → IsRun window high_conf history d
    → IsRun window high_conf ((label, prob) ∷ history) (update label prob d).1
unfolding update regime_of
other-IsRun window high_conf history label current prob d on other long h =
    elim (Bool-cases (leb d.window (streak label history + 1) || le_float d.high_conf prob)) [
      | inl wins ↦
          rw (on, other, long, wins)
            (record {
              window_kept = h.window_kept;
              high_conf_kept = h.high_conf_kept;
              published_is =
                  ground (arith, h.published_is, on, other, wins, h.window_kept, h.high_conf_kept);
              follows = λ l ne. ground (arith, adopted-Follows label l prob history ne);
            })
      | inr holds ↦
          rw (on, other, long, holds)
            (record {
              window_kept = h.window_kept;
              high_conf_kept = h.high_conf_kept;
              published_is =
                  ground (arith, h.published_is, on, other, holds, h.window_kept, h.high_conf_kept);
              follows = λ l _. held-Follows label l prob (streak label history + 1) history refl;
            })
    ]

update-IsRun :
    (window : ℕ) (high_conf : Float) (history : History) (label : String) (prob : Float)
    (d : OnlineDebouncer)
    → IsRun window high_conf history d
    → IsRun window high_conf ((label, prob) ∷ history) (update label prob d).1
update-IsRun window high_conf history label prob d h = elim (Option-cases d.published) [
  | inl first ↦ start-IsRun window high_conf history label prob d first h
  | inr (current, on) ↦ elim (Bool-cases (str_eq label current)) [
    | inl same ↦ same-IsRun window high_conf history label current prob d on same h
    | inr other ↦
        other-IsRun window high_conf history label current prob d on other
          (run_length label d history (subst (λ o. Follows o d history) on h.follows label other)) h
  ]
]

run-IsRun :
    (window : ℕ) (high_conf : Float) (history : History)
    → IsRun window high_conf history (run window high_conf history)
unfolding run regime_of
run-IsRun window high_conf [] = record {
  window_kept = refl;
  high_conf_kept = refl;
  published_is = refl;
  follows = refl;
}
run-IsRun window high_conf ((label, prob) ∷ older) =
    update-IsRun window high_conf older label prob (run window high_conf older)
      (run-IsRun window high_conf older)

-- After any predictions, the published label is the one that the history tells: the first one, then
-- each that was predicted `window` times in a row up to then, or once with a probability of at least
-- `high_conf`; until that the published label stays.
pub run-refines :
    (window : ℕ) (high_conf : Float) (history : History)
    → (run window high_conf history).published ≡ regime_of window high_conf history
run-refines window high_conf history = (run-IsRun window high_conf history).published_is
