-- ===== src/Console/Tests.antt =====
-- POSTs that are refused.
use gpti84_plus.Base.{[], Option, some, ◌≡◌, refl}
use gpti84_plus.Base.Bytes.{Bytes, codes}
use gpti84_plus.Console.{
  missing, null, value, Body, Store, missing_fields, bad_direction, loopback_only, server_error,
  ingest, insert, row_of, has_required,
}

abbrev pub body : Bytes → Body
body text = record {
  ts_ms = value 1700;
  direction = value (codes "c2s");
  size = value 2;
  preview_hex = value (codes "6869");
  preview_ascii = value text;
  conn_id = value (codes "ab12cd34");
  note = null;
}

abbrev pub nobody : Store
nobody = record { rows = []; last = 0; waiters = []; opened = 0 }

abbrev pub local : Option Bytes
local = some (codes "127.0.0.1")

missing_refused :
    (ingest local (some (record (body []) { size = missing })) nobody).0 ≡ missing_fields
unfolding ingest has_required
missing_refused = refl

null_refused : (ingest local (some (record (body []) { size = null })) nobody).0 ≡ server_error
unfolding ingest has_required insert row_of
null_refused = refl

outside_refused : (ingest (some (codes "10.0.0.7")) (some (body [])) nobody).0 ≡ loopback_only
unfolding ingest
outside_refused = refl

direction_refused :
    (ingest local (some (record (body []) { direction = value (codes "up") })) nobody).0
    ≡ bad_direction
unfolding ingest has_required
direction_refused = refl
