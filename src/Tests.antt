-- ===== src/Tests.antt =====
-- Concrete data and runs: a small gazetteer, its caches, and a queue.
mod Runs
mod Seeds
mod Schemas
mod Requests
mod Answers
mod Phrases
use mathlib.Core.List.{Perm}
use mathlib.Core.List.Perm
use address_quality.Prelude.{
  nat_eq, string_eq, inl, inr, none, some, [], ◌∷◌, ◌≡◌, refl, reverse, List, String, ℕ,
}
use address_quality.GoMap.{RangeOrder}
use address_quality.Model.{
  HierarchyMap, AdminLocation, AdminCandidate, Entity, Level, Evidence, EvidenceType,
  MatchedEvidence, ResolvedEvidence,
}
use address_quality.Model
use address_quality.Model.{DiscoveryStrategy}
use address_quality.Cache.{
  Caches, load_all, no_caches, ProvinceRow, CityRow, DistrictRow, SubDistrictRow,
}
use address_quality.Builder.{
  empty_location, build_from_subdistrict, build_from_city, collect_unique_entities,
}
use address_quality.Queue.{Action}

-- The order in which the entries were inserted.
abbrev pub in_order : RangeOrder
in_order = record { visit = λ A m. m; visit_perm = λ A m. Perm.refl m }

abbrev pub swap_first : {A : Type 0} → List A → List A
swap_first [] = []
swap_first (x ∷ []) = x ∷ []
swap_first (x ∷ y ∷ l) = y ∷ x ∷ l

pub swap_first-Perm : {A : Type 0} (m : List A) → Perm (swap_first m) m
swap_first-Perm [] = Perm.refl []
swap_first-Perm (x ∷ []) = Perm.refl (x ∷ [])
swap_first-Perm (x ∷ y ∷ l) = Perm.swap x y l

-- Another order: the first two entries are exchanged.
abbrev pub swapped : RangeOrder
swapped = record { visit = λ A m. swap_first m; visit_perm = λ A m. swap_first-Perm m }

abbrev pub west_java : HierarchyMap
west_java = record {
  city_to_province = (20, 10) ∷ [];
  district_to_city = (30, 20) ∷ [];
  sub_district_to_dist = (40, 30) ∷ [];
}

abbrev pub province_rows : List ProvinceRow
province_rows =
    record {
      id = 10;
      source_id = 1;
      kode = "32";
      name = "Jawa Barat";
      lowercase_normalized = "jawa barat";
    }
    ∷ []

abbrev pub city_rows : List CityRow
city_rows =
    record {
      id = 20;
      source_id = 1;
      kode = "32.73";
      name = "Kota Bandung";
      lowercase_normalized = "bandung";
      postal_code = "40111";
    }
    ∷ []

abbrev pub district_rows : List DistrictRow
district_rows =
    record {
      id = 30;
      source_id = 1;
      kode = "32.73.01";
      name = "Coblong";
      lowercase_normalized = "coblong";
    }
    ∷ []

abbrev pub sub_district_rows : List SubDistrictRow
sub_district_rows =
    record {
      id = 40;
      source_id = 1;
      kode = "32.73.01.1001";
      name = "Dago";
      lowercase_normalized = "dago";
      postal_code = "40135";
    }
    ∷ []

abbrev pub caches : Caches
caches =
    load_all (some province_rows) (some city_rows) (some district_rows) (some sub_district_rows)
      (some west_java) no_caches

abbrev pub dago : Entity
dago = record { id = 40; name = "Dago"; level = Level.subdistrict; postal_code = "40135" }

abbrev pub bandung : Entity
bandung = record { id = 20; name = "Kota Bandung"; level = Level.city; postal_code = "40111" }

abbrev pub word : String → Evidence
word w = record { type = EvidenceType.place_name; value = w }

abbrev pub resolved : List ResolvedEvidence
resolved =
    record { evidence = word "dago"; candidates = dago ∷ [] }
    ∷ record { evidence = word "bandung"; candidates = bandung ∷ [] }
    ∷ []

-- A candidate with all four levels, and evidence for two of them.
abbrev pub full : AdminCandidate
full = record (build_from_subdistrict dago) {
  location = record {
    province = some (record { id = 10; name = "Jawa Barat"; normalized_name = "jawa barat" });
    city = some (record {
      id = 20;
      name = "Kota Bandung";
      normalized_name = "bandung";
      postal_code = "40111";
    });
    district = some (record { id = 30; name = "Coblong"; normalized_name = "coblong" });
    sub_district =
        some (record { id = 40; name = "Dago"; normalized_name = "dago"; postal_code = "40135" });
    postal_code = some (record { id = 40; code = "40135"; name = "" });
    road = none;
    conflicts = [];
  };
  evidence =
      record { evidence = word "dago"; resolved = some dago }
      ∷ record { evidence = word "bandung"; resolved = some bandung }
      ∷ [];
}

-- Two jobs for one worker, and a shutdown.
abbrev pub two_jobs : List (Action ℕ)
two_jobs =
    Action.submits 5
    ∷ Action.moves 0
    ∷ Action.submits 6
    ∷ Action.closes
    ∷ Action.submits 7
    ∷ Action.moves 0
    ∷ Action.moves 0
    ∷ Action.moves 0
    ∷ Action.moves 0
    ∷ []
