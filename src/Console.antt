-- ===== src/Console.antt =====
-- tools/console.py: the event store, its ingest, its pages and its streams. The table of the
-- database is a list of rows; an `insert` holds the lock and does not wait behind it, so that the
-- requests come one after the other. Values have the types of their columns. The HTML page is not
-- modelled.
mod Rows
pub mod Pages
pub mod Ingest
pub mod Queues
pub mod Streams
mod Tests
use gpti84_plus.Base.{
  ℕ, suc, List, [], ◌∷◌, ◌++◌, Option, none, some, Bool, true, false, not, ◌&&◌, ◌||◌, ◌==◌, ltb,
  leb, if◌then◌else◌, length, take,
}
use gpti84_plus.Base.Bytes.{Bytes, codes, same_bytes}

-- A key of a JSON object: it may be missing, or `null`.
pub data Field {ℓ} (A : Type ℓ) : Type ℓ where
  missing null : Field A
  value : A → Field A

pub record Body : Type 0 where
  pub ts_ms : Field ℕ
  pub direction : Field Bytes
  pub size : Field ℕ
  pub preview_hex : Field Bytes
  pub preview_ascii : Field Bytes
  pub conn_id : Field Bytes
  pub note : Field Bytes

pub record Row : Type 0 where
  pub id : ℕ
  pub ts_ms : ℕ
  pub direction : Bytes
  pub size : ℕ
  pub preview_hex : Bytes
  pub preview_ascii : Bytes
  pub conn_id : Bytes
  pub note : Option Bytes

-- What a queue holds: the body with its `id`.
pub record Event : Type 0 where
  pub id : ℕ
  pub body : Body

-- The table with the last number of its AUTOINCREMENT, the queues of the streams that are open,
-- each under its own number, and how many were opened.
pub record Store : Type 0 where
  pub rows : List Row
  pub last : ℕ
  pub waiters : List (ℕ × List Event)
  pub opened : ℕ

-- `q.put_nowait(ev)` with its `QueueFull` caught
pub put : Event → List Event → List Event
put ev q = if ltb (length q) 1024 then q ++ (ev ∷ []) else q

pub put_all : Event → List (ℕ × List Event) → List (ℕ × List Event)
unfolding put
put_all ev [] = []
put_all ev ((i, q) ∷ ws) = (i, put ev q) ∷ put_all ev ws

-- A column that is NOT NULL.
abbrev pub column {ℓ} : {A : Type ℓ} → Field A → Option A
column missing = none
column null = none
column (value a) = some a

-- `ev.get("note")`
abbrev pub note_column : Field Bytes → Option Bytes
note_column missing = none
note_column null = none
note_column (value a) = some a

abbrev pub row_with :
    ℕ
    → Option ℕ
    → Option Bytes
    → Option ℕ
    → Option Bytes
    → Option Bytes
    → Option Bytes
    → Option Bytes
    → Option Row
row_with n (some t) (some d) (some l) (some h) (some a) (some c) remark = some (record {
  id = n;
  ts_ms = t;
  direction = d;
  size = l;
  preview_hex = h;
  preview_ascii = a;
  conn_id = c;
  note = remark;
})
row_with n _ _ _ _ _ _ _ = none

-- The row of a body, if no column that is NOT NULL lacks its value.
unfoldable pub row_of : ℕ → Body → Option Row
row_of n b =
    row_with n (column b.ts_ms) (column b.direction) (column b.size) (column b.preview_hex)
      (column b.preview_ascii) (column b.conn_id) (note_column b.note)

abbrev pub inserted : Option Row → Body → Store → Option (ℕ × Store)
inserted none b s = none
inserted (some r) b s = some (
  r.id,
  record s {
    rows = s.rows ++ (r ∷ []);
    last = r.id;
    waiters = put_all (record { id = r.id; body = b }) s.waiters;
  },
)

-- `none` is an error of the database.
unfoldable pub insert : Body → Store → Option (ℕ × Store)
unfolding row_of put_all
insert b s = inserted (row_of (suc s.last) b) b s

-- `WHERE id > ?`
pub after : ℕ → List Row → List Row
after since [] = []
after since (r ∷ rs) = if ltb since r.id then r ∷ after since rs else after since rs

abbrev pub place : Row → List Row → List Row
place r [] = r ∷ []
place r (q ∷ qs) = if leb r.id q.id then r ∷ q ∷ qs else q ∷ place r qs

-- `ORDER BY id ASC`
pub order_by_id : List Row → List Row
order_by_id [] = []
order_by_id (r ∷ rs) = place r (order_by_id rs)

pub recent : ℕ → ℕ → Store → List Row
unfolding after order_by_id
recent since limit s = take limit (order_by_id (after since s.rows))

pub subscribe : Store → ℕ × Store
subscribe s =
    (s.opened, record s { waiters = s.waiters ++ ((s.opened, []) ∷ []); opened = suc s.opened })

pub without : ℕ → List (ℕ × List Event) → List (ℕ × List Event)
without i [] = []
without i ((j, q) ∷ ws) = if i == j then without i ws else (j, q) ∷ without i ws

pub unsubscribe : ℕ → Store → Store
unfolding without
unsubscribe i s = record s { waiters = without i s.waiters }

-- The answer to a POST.
pub data Reply : Type 0 where
  created : ℕ → Reply
  loopback_only missing_fields bad_direction server_error : Reply

abbrev pub is_there {ℓ} : {A : Type ℓ} → Field A → Bool
is_there missing = false
is_there null = true
is_there (value a) = true

-- `all(k in body for k in required)`
unfoldable pub has_required : Body → Bool
has_required b =
    is_there b.ts_ms
    && is_there b.direction
    && is_there b.size
    && is_there b.preview_hex
    && is_there b.preview_ascii
    && is_there b.conn_id

abbrev pub is_direction : Bytes → Bool
is_direction d =
    same_bytes d (codes "c2s")
    || same_bytes d (codes "s2c")
    || same_bytes d (codes "open")
    || same_bytes d (codes "close")
    || same_bytes d (codes "info")

abbrev pub known_direction : Field Bytes → Bool
known_direction missing = false
known_direction null = false
known_direction (value d) = is_direction d

abbrev pub is_loopback : Option Bytes → Bool
is_loopback none = true
is_loopback (some host) = same_bytes host (codes "127.0.0.1") || same_bytes host (codes "::1")

abbrev pub answered : Store → Option (ℕ × Store) → Reply × Store
answered s none = (server_error, s)
answered s (some (n, t)) = (created n, t)

abbrev pub ingest_body : Option Body → Store → Reply × Store
ingest_body none s = (server_error, s)
ingest_body (some b) s =
    if not (has_required b)
    then (missing_fields, s)
    else if not (known_direction b.direction)
    then (bad_direction, s)
    else answered s (insert b s)

-- The client's address, if it is known, and the body, if it is JSON.
unfoldable pub ingest : Option Bytes → Option Body → Store → Reply × Store
unfolding has_required insert
ingest host body s = if not (is_loopback host) then (loopback_only, s) else ingest_body body s

-- The page of a GET; a `limit` out of its bounds is refused.
pub events : ℕ → ℕ → Store → Option (List Row)
unfolding recent
events since limit s = if leb 1 limit && leb limit 2000 then some (recent since limit s) else none
