-- ===== src/Queue.antt =====
-- The durable local queue: `LocalDurableBackend` of src/system2/common/queue_backend.py over its
-- SQLite table. The rows are listed by `seq`; a body is read back as it was written. An `ack_id`
-- is a number that was never given out before, in place of a UUID. Times are in microseconds; the
-- database's own clock counts whole seconds.
pub mod Rows
pub mod Idle
pub mod Leases
pub mod Claims
pub mod Settling
pub mod Nacking
pub mod Order
pub mod Attempts
pub mod Limit
pub mod Recovery
pub mod Fates
pub mod Reclaiming
pub mod Durability
pub mod Delivery
mod Examples
use Prim.Native.String.{◌++◌ as join}
use system2executor.Prelude.{
  ℕ, ◌+◌, ◌*◌, ◌/◌, Bool, true, false, not, ◌&&◌, ◌||◌, Option, none, some, String, List, [], ◌∷◌,
  ◌++◌, map, leb, ◌==◌, str_eq, any, take, keep, length, count_if, if◌then◌else◌,
}
use system2executor.Clock.{Time, second}

-- A published message, or the wrapper of a dead-lettered one with its reason, time and attempts.
pub data Body (A : Type 0) : Type 0 where
  message : A → Body A
  wrapper : Body A → String → Time → ℕ → Body A

pub data RowState : Type 0 where
  ready inflight done dead : RowState

-- A row of the table `queue`
pub record Row (A : Type 0) : Type 0 where
  pub seq : ℕ
  pub topic : String
  pub body : Body A
  pub state : RowState
  pub attempts : ℕ
  pub available_at : Time
  pub ack_id : Option ℕ
  pub leased_until : Time
  pub lease_owner : Option String

-- The database: its rows, the next `seq`, and the next fresh `ack_id`
pub record Store (A : Type 0) : Type 0 where
  pub rows : List (Row A)
  pub next_seq : ℕ
  pub next_ack : ℕ

-- The settings of one instance
pub record Config : Type 0 where
  pub max_attempts : ℕ
  pub lease : ℕ
  pub owner : String

-- One `LocalDurableBackend`
pub record Instance : Type 0 where
  pub config : Config
  pub recovered : List String

-- `ReceivedMessage`
pub record ReceivedMessage (A : Type 0) : Type 0 where
  pub ack_id : ℕ
  pub topic : String
  pub body : Body A
  pub attempts : ℕ

abbrev pub is_ready : RowState → Bool
is_ready ready = true
is_ready _ = false

abbrev pub is_inflight : RowState → Bool
is_inflight inflight = true
is_inflight _ = false

-- `_DB_NOW`
abbrev pub db_now : Time → Time
db_now now = now / second * second

-- `lease_owner IS NOT ?`, which tells NULL from a text
abbrev is_not : Option String → String → Bool
is_not none owner = true
is_not (some o) owner = not (str_eq o owner)

-- `ack_id=?`, which no NULL meets
abbrev pub has_ack : Option ℕ → ℕ → Bool
has_ack none ack = false
has_ack (some a) ack = a == ack

abbrev pub dlq_topic : String → String
dlq_topic topic = join topic ".dlq"

-- The count in the reason text is left out.
abbrev pub lease_reason : String
lease_reason = "lease expired; max_attempts exceeded"

abbrev pub attempts_reason : String
attempts_reason = "max_attempts exceeded"

abbrev same_row_state : RowState → RowState → Bool
same_row_state ready ready = true
same_row_state inflight inflight = true
same_row_state done done = true
same_row_state dead dead = true
same_row_state _ _ = false

module _ {A : Type 0} where
  -- `UPDATE queue SET … WHERE …`
  unfoldable pub update_where : (Row A → Bool) → (Row A → Row A) → List (Row A) → List (Row A)
  update_where test change [] = []
  update_where test change (r ∷ rows) =
      (if test r then change r else r) ∷ update_where test change rows

  -- `INSERT INTO queue(topic, body, state, attempts, available_at) VALUES (?, ?, 'ready', 0, 0)`
  unfoldable pub insert_row : String → Body A → Store A → Store A
  insert_row topic body s = record s {
    rows =
        s.rows
        ++ record {
          seq = s.next_seq;
          topic = topic;
          body = body;
          state = ready;
          attempts = 0;
          available_at = 0;
          ack_id = none;
          leased_until = 0;
          lease_owner = none;
        }
          ∷ [];
    next_seq = s.next_seq + 1;
  }

  -- `publish`
  unfoldable pub publish : String → A → Store A → Store A
  unfolding insert_row
  publish topic body s = insert_row topic (message body) s

  -- `WHERE seq=? AND state='inflight'`
  abbrev pub inflight_at : ℕ → Row A → Bool
  inflight_at seq r = r.seq == seq && is_inflight r.state

  abbrev pub killed : Row A → Row A
  killed r = record r { state = dead }

  -- The columns that a row gets when it goes back to the queue
  abbrev pub released : Time → Row A → Row A
  released at r = record r {
    state = ready;
    ack_id = none;
    lease_owner = none;
    leased_until = 0;
    available_at = at;
  }

  -- `_dead_letter_row`: the wrapper is filed only if the claim won
  unfoldable pub dead_letter_row : Row A → String → Time → Store A → Store A
  dead_letter_row row reason now s =
      if any (inflight_at row.seq) s.rows
      then insert_row (dlq_topic row.topic) (wrapper row.body reason now row.attempts)
          (record s { rows = update_where (inflight_at row.seq) killed s.rows })
      else s

  -- One round of the loop of `reclaim`
  unfoldable pub reclaim_row : Config → Time → Row A → Store A → Store A
  reclaim_row cfg now row s =
      if leb cfg.max_attempts row.attempts
      then dead_letter_row row lease_reason now s
      else record s { rows = update_where (inflight_at row.seq) (released 0) s.rows }

  unfoldable pub reclaim_rows : Config → Time → List (Row A) → Store A → Store A
  reclaim_rows cfg now [] s = s
  reclaim_rows cfg now (row ∷ rows) s = reclaim_rows cfg now rows (reclaim_row cfg now row s)

  -- The rows that `reclaim` selects
  abbrev pub is_orphan : Config → Bool → String → Time → Row A → Bool
  is_orphan cfg first_pull subscription now r =
      str_eq r.topic subscription
      && is_inflight r.state
      && (leb r.leased_until (db_now now) || first_pull && is_not r.lease_owner cfg.owner)

  -- `reclaim`, with whether it is the instance's first pull of the subscription
  unfoldable pub reclaim : Config → Bool → String → Time → Store A → Store A
  reclaim cfg first_pull subscription now s =
      reclaim_rows cfg now (keep (is_orphan cfg first_pull subscription now) s.rows) s

  -- `WHERE seq=? AND state='ready'`
  abbrev pub ready_at : ℕ → Row A → Bool
  ready_at seq r = r.seq == seq && is_ready r.state

  abbrev pub leased : Config → Time → ℕ → Row A → Row A
  leased cfg now ack r = record r {
    state = inflight;
    ack_id = some ack;
    attempts = r.attempts + 1;
    lease_owner = some cfg.owner;
    leased_until = db_now now + cfg.lease;
  }

  -- The loop of `pull`: a row that a peer has claimed is not delivered
  unfoldable pub claim_rows :
      Config → Time → List (Row A) → Store A → List (ReceivedMessage A) × Store A
  claim_rows cfg now [] s = ([], s)
  claim_rows cfg now (row ∷ rows) s =
      let ack = s.next_ack in
      let (out, s') = claim_rows cfg now rows (record s {
        rows = update_where (ready_at row.seq) (leased cfg now ack) s.rows;
        next_ack = ack + 1;
      }) in
      if any (ready_at row.seq) s.rows
      then (
        record { ack_id = ack; topic = row.topic; body = row.body; attempts = row.attempts + 1 }
            ∷ out,
        s',
      )
      else (out, s')

  -- `WHERE topic=? AND state='ready' AND available_at<=?`
  abbrev pub is_due : String → Time → Row A → Bool
  is_due subscription now r =
      str_eq r.topic subscription && is_ready r.state && leb r.available_at now

  unfoldable pub pull :
      Config → Bool → String → ℕ → Time → Store A → List (ReceivedMessage A) × Store A
  pull cfg first_pull subscription max_messages now s =
      let s' = reclaim cfg first_pull subscription now s in
      claim_rows cfg now (take max_messages (keep (is_due subscription now) s'.rows)) s'

  -- `pull` of an instance, which remembers the subscriptions it has recovered
  unfoldable pub pull_by :
      Instance → String → ℕ → Time → Store A → List (ReceivedMessage A) × Instance × Store A
  pull_by i subscription max_messages now s =
      let first_pull = not (any (str_eq subscription) i.recovered) in
      let (out, s') = pull i.config first_pull subscription max_messages now s in
      (out, record i { recovered = subscription ∷ i.recovered }, s')

  -- `ack`
  unfoldable pub ack : ReceivedMessage A → Store A → Store A
  ack msg s = record s {
    rows = update_where (λ r. has_ack r.ack_id msg.ack_id) (λ r. record r { state = done }) s.rows;
  }

  -- `to_dlq`
  unfoldable pub to_dlq : ReceivedMessage A → String → Time → Store A → Store A
  to_dlq msg reason now s =
      let s' = insert_row (dlq_topic msg.topic) (wrapper msg.body reason now msg.attempts) s in
      record s' { rows = update_where (λ r. has_ack r.ack_id msg.ack_id) killed s'.rows }

  -- `SELECT … WHERE ack_id=?`, `fetchone`
  abbrev pub find_ack : ℕ → List (Row A) → Option (Row A)
  find_ack a [] = none
  find_ack a (r ∷ rows) = if has_ack r.ack_id a then some r else find_ack a rows

  -- `nack`
  unfoldable pub nack : Config → ReceivedMessage A → ℕ → Time → Store A → Store A
  nack cfg msg backoff now s = elim (find_ack msg.ack_id s.rows) [
    | none ↦ s
    | some row ↦
        if leb cfg.max_attempts row.attempts then to_dlq msg attempts_reason now s else record s {
          rows = update_where (λ r. r.seq == row.seq) (released (now + backoff)) s.rows;
        }
  ]

  -- `depth`
  unfoldable pub depth : String → RowState → Store A → ℕ
  depth topic state s = count_if (λ r. str_eq r.topic topic && same_row_state r.state state) s.rows
