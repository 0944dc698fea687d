-- ===== src/ChainValue/Json.antt =====
-- `JSON.stringify` of a decoded value, and `text.includes(part)`. The text of a contract's string or
-- symbol is decoded from UTF-8, so it has no lone surrogate.
use stellar_mosaic.Prelude.{
  ℕ, Bool, true, false, ◌||◌, Option, none, some, List, [], ◌∷◌, ◌++◌, ltb, ◌==◌, if◌then◌else◌,
}
use stellar_mosaic.Text.{Text, codes, to_digits, pad_start}
use stellar_mosaic.Amount.{to_string}
use stellar_mosaic.LedgerRange.{starts_with}
use stellar_mosaic.ChainValue.{
  Native, undefined, null_value, flag, number_value, bigint_value, text_value, bytes_value, vector,
  object, Natives, no_natives, native, Members, no_members, member, join_texts, byte_texts,
}

unfoldable pub has_part : Text → Text → Bool
has_part part [] = starts_with part []
has_part part (c ∷ s) = starts_with part (c ∷ s) || has_part part s

abbrev escaped : ℕ → Text
escaped c =
    if c == b'"' || c == 92
    then 92 ∷ c ∷ []
    else if c == 8
    then 92 ∷ b'b' ∷ []
    else if c == 9
    then 92 ∷ b't' ∷ []
    else if c == 10
    then 92 ∷ b'n' ∷ []
    else if c == 12
    then 92 ∷ b'f' ∷ []
    else if c == 13
    then 92 ∷ b'r' ∷ []
    else if ltb c 32
    then 92 ∷ b'u' ∷ pad_start 4 (to_digits 16 c)
    else c ∷ []

unfoldable pub quoted_rest : Text → Text
quoted_rest [] = b'"' ∷ []
quoted_rest (c ∷ s) = escaped c ++ quoted_rest s

abbrev pub quoted : Text → Text
quoted s = b'"' ∷ quoted_rest s

abbrev wrapped : Text → Text → Option (List Text) → Option Text
wrapped open_text close_text none = none
wrapped open_text close_text (some ts) = some (open_text ++ (join_texts ts ++ close_text))

abbrev added : Option Text → Option (List Text) → Option (List Text)
added none ts = none
added (some t) none = none
added (some t) (some ts) = some (t ∷ ts)

abbrev named : Text → Option Text → Option Text
named name none = none
named name (some t) = some (quoted name ++ (b':' ∷ t))

-- `none` where the call gives undefined or throws: at the top both end in a TypeError of the caller.
-- Within a vector undefined is null, and a member that is undefined is left out.
unfoldable mutual
  pub json_text : Native → Option Text
  json_text undefined = none
  json_text null_value = some (codes "null")
  json_text (flag true) = some (codes "true")
  json_text (flag false) = some (codes "false")
  json_text (number_value n) = some (to_string n)
  json_text (bigint_value n) = none
  json_text (text_value s) = some (quoted s)
  json_text (bytes_value bs) =
      some (codes "{\"type\":\"Buffer\",\"data\":[" ++ (join_texts (byte_texts bs) ++ codes "]}"))
  json_text (vector vs) = wrapped (codes "[") (codes "]") (json_elements vs)
  json_text (object ms) = wrapped (codes "{") (codes "}") (json_members ms)

  json_elements : Natives → Option (List Text)
  json_elements no_natives = some []
  json_elements (native undefined vs) = added (some (codes "null")) (json_elements vs)
  json_elements (native v vs) = added (json_text v) (json_elements vs)

  json_members : Members → Option (List Text)
  json_members no_members = some []
  json_members (member name undefined ms) = json_members ms
  json_members (member name v ms) = added (named name (json_text v)) (json_members ms)
