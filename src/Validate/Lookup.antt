-- ===== src/Validate/Lookup.antt =====
-- resolveLocationByPostalCode of internal/service/validate_helper.go.
use Prim.Native.Char.{code}
use mathlib.Core.List.{foldl}
use address_quality.Prelude.{
  nat_eq, string_eq, [], ◌∷◌, true, false, String, List, ℕ, Bool, if◌then◌else◌, ◌==◌, ◌&&◌, ltb,
  length, ◌||◌, Option, some, none,
}
use address_quality.GoMap.{RangeOrder}
use address_quality.Model.{Location, no_location}
use address_quality.Evidence.{extract_postal_code}
use address_quality.Cache.{append_at}
use address_quality.Database.{Query, ◌>>=◌, pure}
use address_quality.Database.Codes.{find_by_postal_code}

-- `<` on texts
unfoldable pub text_less : String → String → Bool
text_less String.[] String.[] = false
text_less String.[] (String.◌∷◌ d t) = true
text_less (String.◌∷◌ c s) String.[] = false
text_less (String.◌∷◌ c s) (String.◌∷◌ d t) =
    let rest = text_less s t in
    if ltb (code c) (code d) then true else if code c == code d then rest else false

unfoldable pub group_by_district : List Location → List (String × List Location)
group_by_district = foldl (λ groups (r : Location). append_at r.district r groups) []

-- The body of the loop over the groups.
unfoldable pub better_group :
    String × List Location → String × List Location → String × List Location
better_group best group =
    if ltb (length best.1) (length group.1)
      || (length group.1 == length best.1 && text_less group.0 best.0)
    then group
    else best

unfoldable pub best_group : RangeOrder → List Location → String × List Location
best_group order results = foldl better_group ("", []) (order.visit _ (group_by_district results))

-- location == (model.Location{})
unfoldable pub is_no_location : Location → Bool
is_no_location loc =
    loc.postal_code == ""
    && loc.sub_district == ""
    && loc.district == ""
    && loc.city == ""
    && loc.province == ""

-- `best[0], true`; `none` is the panic on an empty group.
abbrev pub first_row : List Location → Option (Location × Bool)
first_row [] = none
first_row (best ∷ others) = some (best, true)

unfoldable pub infer_location : RangeOrder → List Location → Option (Location × Bool)
infer_location order [] = some (no_location, false)
infer_location order (r ∷ rest) = first_row (best_group order (r ∷ rest)).1

unfoldable pub fill_location : Location → String → Location × Bool
fill_location location input_postal_code =
    if location.postal_code == "" && location.sub_district == ""
    then (record location { postal_code = input_postal_code }, true)
    else (location, false)

-- A panic ends the request without a result, like an error.
unfoldable pub resolve_location_by_postal_code :
    RangeOrder → Location → String → ℕ → Query (Location × Bool)
resolve_location_by_postal_code order location normalized source_id =
    let input_postal_code = extract_postal_code normalized in
    if input_postal_code == ""
    then pure (location, false)
    else if is_no_location location
    then find_by_postal_code order input_postal_code source_id
      >>= (λ results c. (infer_location order results, c))
    else pure (fill_location location input_postal_code)
