-- ===== src/Audit/Log.antt =====
-- enterprise/internal/audit/audit.go and verify.go: `computeHash`, `Append`, `VerifyChain`. The table is its
-- rows in id order. SHA-256 with its hex encoding is the parameter `hash`; the id of a new row comes from
-- Postgres and is a parameter too. So is `stored`, what Postgres gives back of a JSON text: the
-- column `detail` has the type jsonb (metadata/migrations/0010_create_audit_log.sql). Append holds a lock for its whole transaction, so appends run one
-- after the other.
use cairnobs.Base.{
  ℕ, ◌+◌, Bool, true, false, not, List, [], ◌∷◌, ◌++◌, Option, none, some, if◌then◌else◌, Text,
  codes, text_eq, is_empty, decimal_text,
}

-- The constants of Source, EventType and Status are texts, as in Go.
pub record Entry : Type 0 where
  pub tenant_id : Text
  pub user_id : Option Text
  pub source : Text
  pub event_type : Text
  pub query_text : Option Text
  pub row_count : Option ℕ
  pub duration_ms : Option ℕ
  pub status : Text
  pub error_message : Option Text
  pub detail : Text

pub record Record : Type 0 where
  pub entry : Entry
  pub id : ℕ
  pub prev_hash : Option Text
  pub row_hash : Text

abbrev pub deref : Option Text → Text
deref none = []
deref (some s) = s

abbrev pub int_to_str : Option ℕ → Text
int_to_str none = []
int_to_str (some n) = decimal_text n

-- The texts that `computeHash` writes, in its order.
abbrev pub hashed_fields : Option Text → Entry → List Text
hashed_fields prev e =
    deref prev
    ∷ e.tenant_id
    ∷ deref e.user_id
    ∷ e.source
    ∷ e.event_type
    ∷ deref e.query_text
    ∷ int_to_str e.row_count
    ∷ int_to_str e.duration_ms
    ∷ e.status
    ∷ deref e.error_message
    ∷ e.detail
    ∷ []

-- `write`, once for each text: the text and a zero byte.
unfoldable pub write_all : List Text → Text
write_all [] = []
write_all (s ∷ ss) = s ++ (0 ∷ write_all ss)

unfoldable pub hash_ptr_equal : Option Text → Option Text → Bool
hash_ptr_equal none none = true
hash_ptr_equal (some a) (some b) = text_eq a b
hash_ptr_equal _ _ = false

pub record VerifyResult : Type 0 where
  pub ok : Bool
  pub first_bad_id : ℕ
  pub rows_checked : ℕ

abbrev pub with_detail : Entry → Entry
with_detail e = if is_empty e.detail then record e { detail = codes "{}" } else e

module _ (hash : Text → Text) where
  unfoldable pub compute_hash : Option Text → Entry → Text
  compute_hash prev e = hash (write_all (hashed_fields prev e))

  -- `SELECT row_hash FROM audit_log ORDER BY id DESC LIMIT 1`, or `prev` if there is no row.
  unfoldable pub last_hash : Option Text → List Record → Option Text
  last_hash prev [] = prev
  last_hash prev (r ∷ rs) = last_hash (some r.row_hash) rs

  -- The row that `Append` inserts, as the table gives it back. The hash is taken of the entry with
  -- its default detail, before it is stored.
  unfoldable pub appended : (Text → Text) → ℕ → Entry → List Record → Record
  unfolding compute_hash last_hash
  appended stored id e rows =
      let e' = with_detail e in
      let prev = last_hash none rows in
      record {
        entry = record e' { detail = stored e'.detail };
        id = id;
        prev_hash = prev;
        row_hash = compute_hash prev e';
      }

  unfoldable pub append : (Text → Text) → ℕ → Entry → List Record → List Record
  unfolding appended
  append stored id e rows = rows ++ appended stored id e rows ∷ []

  -- The loop of `VerifyChain`, with the hash that it expects and the rows that it has checked.
  unfoldable pub verify_from : Option Text → ℕ → List Record → VerifyResult
  unfolding hash_ptr_equal compute_hash
  verify_from expected checked [] = record { ok = true; first_bad_id = 0; rows_checked = checked }
  verify_from expected checked (r ∷ rs) =
      let bad : VerifyResult = record {
        ok = false;
        first_bad_id = r.id;
        rows_checked = checked + 1;
      } in
      let rest = verify_from (some r.row_hash) (checked + 1) rs in
      if not (hash_ptr_equal r.prev_hash expected)
      then bad
      else if not (text_eq (compute_hash r.prev_hash r.entry) r.row_hash)
      then bad
      else rest

  unfoldable pub verify_chain : List Record → VerifyResult
  unfolding verify_from
  verify_chain rows = verify_from none 0 rows
