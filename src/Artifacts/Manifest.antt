-- ===== src/Artifacts/Manifest.antt =====
-- The published pointer: `Manifest`, `Artifact`, `Withdrawn`, `parse_withdrawal` and `fetch_manifest`
-- of src/system2/artifact_sync/downloader.py. `int(v)` is an argument.
use Prim.Native.Char.{Char, code}
use Prim.Native.String.{char_at, ◌++◌ as join}
use system2executor.Prelude.{
  ◌-◌, Bool, ◌&&◌, ◌||◌, Option, none, some, String, List, [], ◌∷◌, Result, ok, err, ◌>>=◌, leb,
  ◌==◌, str_eq, if◌then◌else◌,
}
use system2executor.Prelude.Int.{ℤ, pos}
use system2executor.Message.{
  Value, Items, Fields, text, list, object, nil, cons, end, lookup, if_truthy, str_of,
}
use system2executor.Orders.{Exception, type_error, value_error, other_error, item}

-- `Artifact`; the fields are kept as they stand in the manifest
pub record Artifact : Type 0 where
  pub name : Value
  pub path : Value
  pub sha256 : Value
  pub bytes : ℤ

-- `Manifest`
pub record Manifest : Type 0 where
  pub schema_version : ℤ
  pub model_set_id : String
  pub published_at : String
  pub artifacts : List Artifact

-- `Withdrawn`
pub record Withdrawn : Type 0 where
  pub reason : String
  pub withdrawn_at : String
  pub supersedes : Option String

-- `int(v)`; `none` is a ValueError
abbrev pub IntReader : Type 0
IntReader = Value → Option ℤ

abbrev as_int : IntReader → Value → Result Exception ℤ
as_int int_of v = elim (int_of v) [ none ↦ err value_error | some n ↦ ok n ]

-- `int(d.get(k, 0))`
abbrev int_at : IntReader → String → Fields → Result Exception ℤ
int_at int_of k d = elim (lookup k d) [ none ↦ ok (pos 0) | some v ↦ as_int int_of v ]

-- `Artifact.from_dict`
unfoldable pub artifact_from_dict : IntReader → Value → Result Exception Artifact
artifact_from_dict int_of (object d _) = do
  name ← item "name" d
  path ← item "path" d
  sha256 ← item "sha256" d
  bytes ← int_at int_of "bytes" d
  ok (record { name = name; path = path; sha256 = sha256; bytes = bytes })
artifact_from_dict int_of _ = err type_error

abbrev pub artifacts_from : IntReader → Items → Result Exception (List Artifact)
artifacts_from int_of nil = ok []
artifacts_from int_of (cons v rest) =
    artifact_from_dict int_of v >>= λ a. artifacts_from int_of rest >>= λ more. ok (a ∷ more)

-- What a loop over a value yields; the keys of a dict and the letters of a text are no artifacts.
abbrev items_of : Value → Result Exception Items
items_of (list items _) = ok items
items_of (text s) = if str_eq s "" then ok nil else err type_error
items_of (object end _) = ok nil
items_of _ = err type_error

abbrev not_empty : List Artifact → Result Exception (List Artifact)
not_empty [] = err value_error
not_empty (a ∷ rest) = ok (a ∷ rest)

abbrev str_or : String → Option Value → String
str_or default none = default
str_or default (some v) = str_of v

-- `Manifest.parse` of what `json.loads` read
unfoldable pub parse_manifest : IntReader → Value → Result Exception Manifest
unfolding artifact_from_dict
parse_manifest int_of (object d _) = do
  raw ← item "artifacts" d
  items ← items_of raw
  read ← artifacts_from int_of items
  artifacts ← not_empty read
  version ← item "schema_version" d
  schema_version ← as_int int_of version
  model_set_id ← item "model_set_id" d
  ok (record {
    schema_version = schema_version;
    model_set_id = str_of model_set_id;
    published_at = str_or "" (lookup "published_at" d);
    artifacts = artifacts;
  })
parse_manifest int_of _ = err type_error

-- `s.strip()` of ASCII's white space and `s.lower()` on its letters
abbrev is_space : Char → Bool
is_space c = code c == 32 || leb 9 (code c) && leb (code c) 13

unfoldable pub strip_left : String → String
strip_left String.[] = String.[]
strip_left (String.◌∷◌ c s) = if is_space c then strip_left s else String.◌∷◌ c s

unfoldable pub strip_right : String → String
strip_right String.[] = String.[]
strip_right (String.◌∷◌ c s) =
    let rest = strip_right s in
    if is_space c && str_eq rest "" then String.[] else String.◌∷◌ c rest

abbrev lower_char : Char → Char
lower_char c =
    if leb b'A' (code c) && leb (code c) b'Z'
    then char_at "abcdefghijklmnopqrstuvwxyz" (code c - b'A')
    else c

unfoldable pub lower : String → String
lower String.[] = String.[]
lower (String.◌∷◌ c s) = String.◌∷◌ (lower_char c) (lower s)

abbrev is_live : String → Bool
is_live status = str_eq status "" || str_eq status "published" || str_eq status "active"

abbrev withdrawal_of : String → Fields → String → Option Withdrawn
withdrawal_of now d status =
    if is_live status
    then none
    else some (record {
      reason =
          str_or (join "model set " (join status " by the publisher"))
            (if_truthy (lookup "reason" d));
      withdrawn_at = str_or now (if_truthy (lookup "withdrawn_at" d));
      supersedes = elim (if_truthy (lookup "supersedes" d)) [
        | none ↦ none
        | some v ↦ some (str_of v)
      ];
    })

-- `parse_withdrawal` of what `json.loads` read; `none` is a text that it could not read
unfoldable pub parse_withdrawal : String → Option Value → Option Withdrawn
unfolding strip_left strip_right lower
parse_withdrawal now (some (object d _)) =
    withdrawal_of now d
      (lower (strip_right (strip_left (str_or "" (if_truthy (lookup "status" d))))))
parse_withdrawal now _ = none

-- How `fetch_manifest` ends
pub data Fetched : Type 0 where
  withdrawal : Withdrawn → Fetched
  fault : Exception → Fetched
  manifest : Manifest → Fetched

abbrev parsed : Result Exception Manifest → Fetched
parsed (ok m) = manifest m
parsed (err e) = fault e

abbrev parse_json : IntReader → Option Value → Fetched
parse_json int_of none = fault (other_error "JSONDecodeError")
parse_json int_of (some v) = parsed (parse_manifest int_of v)

abbrev read_pointer : IntReader → String → Option Value → Fetched
read_pointer int_of now raw = elim (parse_withdrawal now raw) [
  | some w ↦ withdrawal w
  | none ↦ parse_json int_of raw
]

-- `fetch_manifest`, of the pointer as the storage answers it and `json.loads` reads it
unfoldable pub fetch_manifest : IntReader → String → Result Exception (Option Value) → Fetched
fetch_manifest int_of now (err e) = fault e
fetch_manifest int_of now (ok raw) = read_pointer int_of now raw
