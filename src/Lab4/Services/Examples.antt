-- ===== src/Lab4/Services/Examples.antt =====
-- The calculator over natural numbers.
use nssa_ds.Base.{ℕ, ◌+◌, ◌-◌, ◌*◌, ◌/◌, [], ◌==◌}
use nssa_ds.Base.Text.{text}
use nssa_ds.Base.Decimal.{parse_int, decimal}
use nssa_ds.Lab4.Server.{Request}
use nssa_ds.Lab4.Services.{Floats}

abbrev numbers : Floats ℕ
numbers = record {
  parse = parse_int;
  show = decimal;
  add = ◌+◌;
  sub = ◌-◌;
  mul = ◌*◌;
  div = ◌/◌;
  is_zero = λ n. n == 0;
}

abbrev request : Request
request = record { id = text "7"; command = []; body = text "8 / 2"; client_addr = text "a" }
