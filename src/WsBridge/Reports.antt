-- ===== src/WsBridge/Reports.antt =====
-- What the bridge reports, and what the console makes of it.
use gpti84_plus.Base.{◌≡◌, true, All}
use gpti84_plus.Base.Bytes.{Bytes}
use gpti84_plus.Console.{is_direction}
use gpti84_plus.WsBridge.{Emit, Session}

abbrev pub IsReport : Emit → Type 0
IsReport e = is_direction e.direction ≡ true

abbrev Reports : Session → Type 0
Reports s = All IsReport s.emits
