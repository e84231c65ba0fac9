-- ===== src/Lab4/Services.antt =====
-- lab4/internal/usecase/services.go and stats_service.go: what the services answer. float64 with its text, the
-- time's text and json.MarshalIndent are parameters.
pub mod Calc
mod Examples
use nssa_ds.Base.{
  ℕ, Bool, true, false, List, [], ◌∷◌, ◌++◌, Option, none, some, String, if◌then◌else◌,
}
use nssa_ds.Base.Result.{Result, ok, err, panic}
use nssa_ds.Base.Bytes.{Bytes}
use nssa_ds.Base.Text.{Text, text, text_eq}
use nssa_ds.Base.Strings.{fields, to_upper}
use nssa_ds.Base.Decimal.{decimal}
use nssa_ds.Lab4.Server.{Request, Response, ServiceStats}

-- What the code does with float64. `parse` is strconv.ParseFloat, `show` is %.2f.
pub record Floats {ℓ} (F : Type ℓ) : Type ℓ where
  pub parse : Text → Option F
  pub show : F → Text
  pub add : F → F → F
  pub sub : F → F → F
  pub mul : F → F → F
  pub div : F → F → F
  pub is_zero : F → Bool

abbrev pub answered : Text → Text → Text → Response
answered id service items = record { id = id; service = service; body = items; error = none }

abbrev pub refused : Text → Text → Text → Response
refused id service error = record { id = id; service = service; body = []; error = some error }

unfoldable pub echo_service : Request → Result Text Response
echo_service req = ok (answered req.id (text "echo") (text "ECHO: " ++ req.body))

-- `now` is the time as RFC 3339 and `unix` the same in seconds.
unfoldable pub time_service : Text → ℕ → Request → Result Text Response
time_service now unix req = ok (
    answered req.id (text "time") (
      if text_eq (to_upper req.command) (text "UNIX")
      then text "Unix timestamp: " ++ decimal unix
      else text "Current time: " ++ now))

abbrev pub calc_response : Text → Result Text Text → Result Text Response
calc_response id (ok items) = ok (answered id (text "calc") items)
calc_response id (err e) = ok (refused id (text "calc") e)
calc_response id panic = panic

module _ {ℓ} {F : Type ℓ} (f : Floats F) where
  -- The switch over the operators: the result, or the text of the error.
  unfoldable pub calculate : F → Text → F → Result Text F
  calculate a op b =
      if text_eq op (text "+")
      then ok (f.add a b)
      else if text_eq op (text "-")
      then ok (f.sub a b)
      else if text_eq op (text "*")
      then ok (f.mul a b)
      else if text_eq op (text "/")
      then (if f.is_zero b then err (text "division by zero") else ok (f.div a b))
      else err (text "unsupported operator: " ++ op)

  abbrev pub shown : F → Text → F → Result Text F → Result Text Text
  shown a op b (ok r) =
      ok (f.show a ++ (text " " ++ (op ++ (text " " ++ (f.show b ++ (text " = " ++ f.show r))))))
  shown a op b (err e) = err e
  shown a op b panic = panic

  abbrev pub with_numbers : Text → Option F → Option F → Result Text Text
  with_numbers op (some a) (some b) = shown a op b (calculate a op b)
  with_numbers op _ _ = err (text "invalid numbers")

  abbrev pub calc_parts : List Text → Result Text Text
  calc_parts (a ∷ (op ∷ (b ∷ _))) = with_numbers op (f.parse a) (f.parse b)
  calc_parts _ = err (text "usage: <num1> <op> <num2>")

  unfoldable pub calc_service : Request → Result Text Response
  calc_service req = calc_response req.id (calc_parts (fields req.body))

-- The entry of a service in the statistics, by the text of its name.
unfoldable pub stats_of : Text → List (String × ServiceStats) → Option ServiceStats
stats_of name [] = none
stats_of name ((key, stats) ∷ rest) =
    if text_eq (text key) name then some stats else stats_of name rest

-- json.MarshalIndent of one entry and of all; none is an error, whose text is `cause`.
pub record Encoder : Type 0 where
  pub one : Text → ServiceStats → Option Bytes
  pub all : List (String × ServiceStats) → Option Bytes
  pub cause : Text

abbrev pub marshalled : Encoder → Option Bytes → Response
marshalled e none = refused [] (text "stats") (text "failed to marshal stats: " ++ e.cause)
marshalled e (some items) = answered [] (text "stats") items

unfoldable pub handle_all_stats : Encoder → List (String × ServiceStats) → Response
handle_all_stats e stats = marshalled e (e.all stats)

abbrev pub service_stats : Encoder → Text → Option ServiceStats → Response
service_stats e name none =
    refused [] (text "stats") (text "service " ++ (name ++ text " not found"))
service_stats e name (some stats) = marshalled e (e.one name stats)

unfoldable pub handle_service_stats : Encoder → List (String × ServiceStats) → Bytes → Response
handle_service_stats e stats items = service_stats e items (stats_of items stats)

unfoldable pub handle_pool_stats : Response
handle_pool_stats = answered [] (text "stats") (text "Pool stats not implemented in this version")

-- `help` is the constant of the source, of several lines.
unfoldable pub handle_help : Text → Response
handle_help help = answered [] (text "stats") help

unfoldable pub stats_service :
    Encoder → Text → List (String × ServiceStats) → Request → Result Text Response
stats_service e help stats req = ok (
    if text_eq req.command (text "ALL")
    then handle_all_stats e stats
    else if text_eq req.command (text "SERVICE")
    then handle_service_stats e stats req.body
    else if text_eq req.command (text "POOL")
    then handle_pool_stats
    else if text_eq req.command (text "HELP")
    then handle_help help
    else refused req.id (text "stats") (text "unknown command: " ++ req.command))
