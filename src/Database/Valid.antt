-- ===== src/Database/Valid.antt =====
-- A well-formed location database: the constraints of db/location.sql, and the hierarchy as a tree of
-- codes.
pub mod Sound
pub mod Inserts
pub mod Updates
pub mod Truncate
pub mod Methods
use Prim.Native.String
use address_quality.Prelude.{
  nat_eq, string_eq, none, some, [], ◌∷◌, true, false, ◌≡◌, refl, Bool, ℕ, List, String, All, any,
  ◌&&◌, ◌==◌, ◌<◌, ◌++◌, arith, any-append,
}
use address_quality.Database.{SourceRow, CodeRow, HierarchyEntry, PriorityEntry, LocationDb}
use address_quality.Database.Codes.{of_source}

-- No element is the same as a later one.
abbrev pub NoRepeat : {A : Type 0} → (A → A → Bool) → List A → Type 0
NoRepeat same [] = Unit
NoRepeat same (x ∷ xs) = (any (same x) xs ≡ false) × NoRepeat same xs

pub NoRepeat-snoc :
    {A : Type 0} (same : A → A → Bool) (x : A) (xs : List A)
    → any (λ y. same y x) xs ≡ false
    → NoRepeat same xs
    → NoRepeat same (xs ++ x ∷ [])
NoRepeat-snoc same x [] new h = (refl, tt)
NoRepeat-snoc same x (y ∷ xs) new (first, h) =
    (ground (arith, any-append (same y) xs (x ∷ [])), NoRepeat-snoc same x xs (ground arith) h)

-- The row of this source with this id and this code.
unfoldable pub is_row : ℕ → ℕ → String → CodeRow → Bool
is_row source_id id kode r = of_source source_id r && r.id == id && r.kode == kode

abbrev pub HasRow : List CodeRow → ℕ → ℕ → String → Type 0
HasRow codes source_id id kode = any (is_row source_id id kode) codes ≡ true

-- The second code is the first, a point and one part more.
abbrev pub IsBelow : String → String → Type 0
IsBelow parent kode = (part : String) × (kode ≡ String.◌++◌ parent (String.◌++◌ "." part))

-- The four rows of an entry are there, each below the one before.
pub record IsSound (codes : List CodeRow) (e : HierarchyEntry) : Type 0 where
  pub province_kode : String
  pub city_kode : String
  pub district_kode : String
  pub subdistrict_kode : String
  pub province : HasRow codes e.location_source_id e.province_id province_kode
  pub city : HasRow codes e.location_source_id e.city_id city_kode
  pub district : HasRow codes e.location_source_id e.district_id district_kode
  pub subdistrict : HasRow codes e.location_source_id e.subdistrict_id subdistrict_kode
  pub city_below : IsBelow province_kode city_kode
  pub district_below : IsBelow city_kode district_kode
  pub subdistrict_below : IsBelow district_kode subdistrict_kode

abbrev pub same_version : SourceRow → SourceRow → Bool
same_version r s = r.code == s.code && r.version == s.version

abbrev pub same_id : CodeRow → CodeRow → Bool
same_id r s = r.id == s.id

abbrev pub same_kode : CodeRow → CodeRow → Bool
same_kode r s = r.location_source_id == s.location_source_id && r.kode == s.kode

abbrev pub same_subdistrict : HierarchyEntry → HierarchyEntry → Bool
same_subdistrict e f =
    e.location_source_id == f.location_source_id && e.subdistrict_id == f.subdistrict_id

abbrev pub same_name : PriorityEntry → PriorityEntry → Bool
same_name p q =
    p.location_source_id == q.location_source_id && p.lowercase_normalized == q.lowercase_normalized

pub record IsValid (d : LocationDb) : Type 0 where
  pub versions : NoRepeat same_version d.location_sources
  pub ids : NoRepeat same_id d.location_codes
  pub next : All (λ r. r.id < d.next_code_id) d.location_codes
  pub kodes : NoRepeat same_kode d.location_codes
  pub subdistricts : NoRepeat same_subdistrict d.location_hierarchy
  pub hierarchy : All (IsSound d.location_codes) d.location_hierarchy
  pub priorities : NoRepeat same_name d.location_city_priority
