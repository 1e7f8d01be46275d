-- ===== src/Database.antt =====
-- The location database of internal/database/location.go and db/location.sql: its tables, and the
-- calls of database/sql. A SQL statement is modelled by what its text says of the rows; the order
-- of the rows of a SELECT without ORDER BY is left open, like that of a `range`. Any call of the
-- driver may fail: the connection holds the outcomes of the calls to come. Creation times are left
-- out, and so are the ids of rows that nothing refers to.
pub mod Dialect
pub mod Visited
pub mod Returns
pub mod Methods
pub mod Atomic
pub mod Valid
pub mod Does
pub mod Keeps
pub mod Sources
pub mod Codes
pub mod Normalized
pub mod Hierarchy
pub mod Priority
use address_quality.Prelude.{
  nat_eq, string_eq, none, some, [], ◌∷◌, true, false, String, Option, List, ℕ, Bool,
}
use address_quality.GoMap.{RangeOrder}

pub record SourceRow : Type 0 where
  pub id : ℕ
  pub code : String
  pub version : String
  pub name : String
  pub code_date : String
  pub desc : String
  pub deleted_at : Option String

pub record CodeRow : Type 0 where
  pub id : ℕ
  pub location_source_id : ℕ
  pub kode : String
  pub name : String
  pub lowercase_normalized : String
  pub level_id : ℕ
  pub postal_code : Option String
  pub updated_at : Option String
  pub deleted_at : Option String

pub record AliasRow : Type 0 where
  pub location_id : ℕ
  pub alias : String

pub record HierarchyEntry : Type 0 where
  pub location_source_id : ℕ
  pub province_id : ℕ
  pub city_id : ℕ
  pub district_id : ℕ
  pub subdistrict_id : ℕ
  pub deleted_at : Option String

pub record PriorityEntry : Type 0 where
  pub location_source_id : ℕ
  pub lowercase_normalized : String
  pub city_type : String
  pub deleted_at : Option String

-- The tables, and the next id of each AUTOINCREMENT whose ids are referred to.
pub record LocationDb : Type 0 where
  pub location_sources : List SourceRow
  pub location_codes : List CodeRow
  pub location_alias : List AliasRow
  pub location_hierarchy : List HierarchyEntry
  pub location_city_priority : List PriorityEntry
  pub next_source_id : ℕ
  pub next_code_id : ℕ

-- The schema without rows.
abbrev pub empty_db : LocationDb
empty_db = record {
  location_sources = [];
  location_codes = [];
  location_alias = [];
  location_hierarchy = [];
  location_city_priority = [];
  next_source_id = 1;
  next_code_id = 1;
}

-- The database, and for each call of the driver to come whether it fails; after them none does.
pub record Conn : Type 0 where
  pub db : LocationDb
  pub faults : List Bool

-- A method of the repository: `none` is an error.
abbrev pub Query : Type 0 → Type 0
Query A = Conn → Option A × Conn

abbrev pub pure : {A : Type 0} → A → Query A
pure a c = (some a, c)

infixl 5 ◌>>=◌ ◌>>◌
abbrev pub ◌>>=◌ : {A B : Type 0} → Query A → (A → Query B) → Query B
◌>>=◌ m k c = let (r, c') = m c in elim r [ none ↦ (none, c') | some a ↦ k a c' ]

abbrev pub ◌>>◌ : {A B : Type 0} → Query A → Query B → Query B
m >> k = m >>= λ _. k

abbrev pub gets : {A : Type 0} → (LocationDb → Option A) → Query A
gets f c = (f c.db, c)

abbrev pub modify : (LocationDb → LocationDb) → Query (Unit {0})
modify f c = (some tt, record c { db = f c.db })

-- One call of the driver.
unfoldable pub call : Query (Unit {0})
call c = elim c.faults [
  | [] ↦ (some tt, c)
  | true ∷ faults ↦ (none, record c { faults = faults })
  | false ∷ faults ↦ (some tt, record c { faults = faults })
]

-- QueryContext and the loop over its rows, which ends with rows.Err.
unfoldable pub query : {A : Type 0} → RangeOrder → (LocationDb → List A) → Query (List A)
unfolding call
query order rows = call >> call >> gets (λ d. some (order.visit _ (rows d)))

-- QueryRowContext and Scan of at most one row; no row is the error ErrNoRows.
unfoldable pub select_row : {A : Type 0} → (LocationDb → Option A) → Query A
unfolding call
select_row row = call >> gets row

-- ExecContext
unfoldable pub exec : (LocationDb → LocationDb) → Query (Unit {0})
unfolding call
exec f = call >> modify f

-- A deferred Rollback undoes what was written, after a Commit it does nothing.
abbrev rolled_back : LocationDb → Conn → Conn
rolled_back db c = record c { db = db }

-- The outcome of Commit, after statements that gave a value, and the end of a transaction.
unfoldable pub committed :
    {A : Type 0} → LocationDb → A → Option (Unit {0}) × Conn → Option A × Conn
committed db a (none, c) = (none, rolled_back db c)
committed db a (some u, c) = (some a, c)

unfoldable pub finish : {A : Type 0} → LocationDb → Option A × Conn → Option A × Conn
finish db (none, c) = (none, rolled_back db c)
finish db (some a, c) = committed db a (call c)

-- BeginTx, the statements, Commit, with `defer tx.Rollback()`.
unfoldable pub transaction : {A : Type 0} → Query A → Query A
transaction body c = finish c.db ((call >> body) c)
