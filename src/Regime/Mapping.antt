-- ===== src/Regime/Mapping.antt =====
-- From the posteriors of the states to the probabilities of the labels: `order_probabilities` of
-- src/system2/artifact_sync/regime_mapping.py, at one row of posteriors.
pub mod Mass
use system2executor.Prelude.{
  ℕ, zero, suc, Bool, true, false, not, ◌&&◌, String, List, [], ◌∷◌, map, keep, any, length, ltb,
  str_eq, Result, ok, err, if◌then◌else◌,
}
use system2executor.Prelude.Float.{Float, num, zero_float, ◌+float◌}
use system2executor.Prelude.Int.{ℤ, pos, negsuc}
use system2executor.Orders.{Exception, value_error}

-- `SEMANTIC_ORDER`
abbrev pub semantic_order : List String
semantic_order = "Trending-Up" ∷ "Trending-Down" ∷ "Ranging" ∷ "High-Vol" ∷ []

-- A state with its label
abbrev pub Mapping : Type 0
Mapping = List (ℤ × String)

-- `posteriors[s]`
abbrev pub get_or {ℓ} : {A : Type ℓ} → List A → ℕ → A → A
get_or [] i default = default
get_or (x ∷ xs) zero default = x
get_or (x ∷ xs) (suc i) default = get_or xs i default

abbrev pub posterior : List Float → ℤ → Float
posterior posteriors (pos s) = get_or posteriors s zero_float
posterior posteriors (negsuc _) = zero_float

abbrev pub is_state : ℕ → ℤ → Bool
is_state n (pos s) = ltb s n
is_state n (negsuc _) = false

abbrev pub total : List Float → Float
total [] = zero_float
total (x ∷ xs) = x +float total xs

-- The sum over the states that carry the label; 0.0 where none does
abbrev pub column : List Float → Mapping → String → Float
column posteriors mapping label = total (
    map (λ (entry : ℤ × String). posterior posteriors entry.0)
      (keep (λ (entry : ℤ × String). str_eq entry.1 label) mapping))

-- `order_probabilities`
unfoldable pub order_probabilities : List Float → Mapping → Result Exception (List Float)
order_probabilities posteriors mapping =
    if any (λ (entry : ℤ × String). not (is_state (length posteriors) entry.0)) mapping
    then err value_error
    else ok (map (column posteriors mapping) semantic_order)
