-- ===== src/Providers/Prices.antt =====
-- packages/llm/src/prices.ts. A price is for a million tokens; a cost is in millionths of it. The parser
-- of the table's JSON is a parameter.
use karya_kram.Base.{ℕ, ◌+◌, ◌*◌, String, Option, none, some, [], ◌∷◌, text_eq, ◌==◌, if◌then◌else◌}
use karya_kram.Base.Throws.{Throws, threw, returned}
use karya_kram.Base.Dict.{Dict, get, put}

pub record ModelPrice : Type 0 where
  pub input_per_mtok_usd : ℕ
  pub output_per_mtok_usd : ℕ

abbrev pub PriceTable : Type 0
PriceTable = Dict String ModelPrice

abbrev price : ℕ → ℕ → ModelPrice
price i o = record { input_per_mtok_usd = i; output_per_mtok_usd = o }

abbrev pub default_price_table : PriceTable
default_price_table =
    ("mock-1", price 1 2)
    ∷ ("claude-opus-5-5", price 4 20)
    ∷ ("claude-sonnet-5-5", price 2 10)
    ∷ ("claude-haiku-4-5", price 1 5)
    ∷ []

-- `{ ...table, ...parsed }`
unfoldable pub spread : PriceTable → PriceTable → PriceTable
unfolding put
spread table [] = table
spread table ((model, p) ∷ parsed) = spread (put model p table) parsed

unfoldable pub parsed_table : Throws PriceTable → Throws PriceTable
unfolding spread
parsed_table (threw message) = threw message
parsed_table (returned parsed) = returned (spread default_price_table parsed)

unfoldable pub load_price_table : (String → Throws PriceTable) → Option String → Throws PriceTable
load_price_table parse none = returned default_price_table
load_price_table parse (some raw) =
    let parsed = parsed_table (parse raw) in
    if raw == "" then returned default_price_table else parsed

abbrev cost : ℕ → ℕ → Option ModelPrice → Option ℕ
cost tokens_in tokens_out none = none
cost tokens_in tokens_out (some p) =
    some (tokens_in * p.input_per_mtok_usd + tokens_out * p.output_per_mtok_usd)

-- `none` where the model is not in the table.
unfoldable pub estimate_cost_usd : String → ℕ → ℕ → PriceTable → Option ℕ
unfolding get
estimate_cost_usd model tokens_in tokens_out table = cost tokens_in tokens_out (get model table)
