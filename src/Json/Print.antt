-- ===== src/Json/Print.antt =====
-- JSON.stringify, with no white space. `undefined` is dropped from objects and is `null` in arrays.
use Prim.Native.Char.{Char, code}
use Prim.Native.String.{◌++◌, slice}
use karya_kram.Base.{
  ℕ, ◌+◌, ◌/◌, ◌%◌, String, Bool, true, false, ltb, ◌==◌, number_eq, ◌≡◌, refl, if◌then◌else◌,
}
use karya_kram.Json.{
  Value, Items, Fields, undefined, null, bool, num, str, arr, obj, nil, cons, end, field,
  is_undefined,
}

hex_digit : ℕ → String
hex_digit d = slice "0123456789abcdef" d (d + 1)

-- One character between quotes.
escape : Char → String
unfolding hex_digit
escape c =
    let n = code c in
    if n == 34
    then "\\\""
    else if n == 92
    then "\\\\"
    else if n == 8
    then "\\b"
    else if n == 9
    then "\\t"
    else if n == 10
    then "\\n"
    else if n == 12
    then "\\f"
    else if n == 13
    then "\\r"
    else if ltb n 32
    then "\\u00" ++ hex_digit (n / 16) ++ hex_digit (n % 16)
    else String.◌∷◌ c String.[]

escape_all : String → String
escape_all String.[] = ""
escape_all (String.◌∷◌ c s) = escape c ++ escape_all s

quote : String → String
unfolding escape escape_all
quote s = "\"" ++ escape_all s ++ "\""

-- What separates a field or an item from those before it.
abbrev comma : Bool → String
comma true = ""
comma false = ","

unfoldable mutual
  unfolding quote

  pub stringify : Value → String
  stringify undefined = "null"
  stringify null = "null"
  stringify (bool true) = "true"
  stringify (bool false) = "false"
  stringify (num n) = n
  stringify (str s) = quote s
  stringify (arr xs) = "[" ++ print_items true xs ++ "]"
  stringify (obj fs) = "{" ++ print_fields true fs ++ "}"

  pub print_items : Bool → Items → String
  print_items first nil = ""
  print_items first (cons x xs) = comma first ++ stringify x ++ print_items false xs

  pub print_fields : Bool → Fields → String
  print_fields first end = ""
  print_fields first (field k v fs) =
      let text = stringify v in
      let rest = print_fields false fs in
      let skipped = print_fields first fs in
      if is_undefined v then skipped else comma first ++ quote k ++ ":" ++ text ++ rest

stringify_example :
    stringify (
      obj (
        field "a"
          (arr (cons (num "1") (cons undefined nil)))
          (field "b" undefined (field "c\n" (str "\"x") end))))
    ≡ "{\"a\":[1,null],\"c\\n\":\"\\\"x\"}"
unfolding stringify
stringify_example = refl
