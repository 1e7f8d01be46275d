-- ===== src/Database/Keeps.antt =====
-- Properties of the database that a method keeps.
use address_quality.Prelude.{none, some, inl, inr, List, Option-cases, Option, subst, sym}
use address_quality.GoMap.{RangeOrder}
use address_quality.Database.{
  LocationDb, Conn, Query, pure, ◌>>=◌, ◌>>◌, call, query, exec, transaction, modify, committed,
  finish,
}
use address_quality.Database.Does.{Does, IsRead, IsAtomic, call-IsRead, query-IsRead}

-- The method keeps a property of the database, whether it fails or not.
abbrev pub Keeps : {A : Type 0} → (LocationDb → Type 0) → Query A → Type 0
Keeps P m = (c : Conn) → P c.db → P (m c).1.db

pub IsRead-Keeps : {A : Type 0} (P : LocationDb → Type 0) (m : Query A) → IsRead m → Keeps P m
IsRead-Keeps P m h c p = subst P (sym (h c)) p

pub pure-Keeps : {A : Type 0} (P : LocationDb → Type 0) (a : A) → Keeps P (pure a)
pure-Keeps P a c p = p

pub bind-Keeps :
    {A B : Type 0} (P : LocationDb → Type 0) (m : Query A) (k : A → Query B)
    → Keeps P m
    → ((a : A) → Keeps P (k a))
    → Keeps P (m >>= k)
bind-Keeps P m k hm hk c p = elim (Option-cases (m c).0) [
  | inl failed ↦ rw (◌>>=◌, failed) (hm c p)
  | inr (a, returned) ↦ rw (◌>>=◌, returned) (hk a (m c).1 (hm c p))
]

pub exec-Keeps :
    (P : LocationDb → Type 0) (f : LocationDb → LocationDb)
    → ((d : LocationDb) → P d → P (f d))
    → Keeps P (exec f)
unfolding exec
exec-Keeps P f h =
    bind-Keeps P call (λ a. modify f) (IsRead-Keeps P call call-IsRead) (λ a c p. h c.db p)

pub query-Keeps :
    {A : Type 0} (P : LocationDb → Type 0) (order : RangeOrder) (rows : LocationDb → List A)
    → Keeps P (query order rows)
query-Keeps P order rows = IsRead-Keeps P (query order rows) (query-IsRead order rows)

committed-Keeps :
    {A : Type 0} (P : LocationDb → Type 0) (old : LocationDb) (a : A) (o : Option (Unit {0}) × Conn)
    → P old
    → P o.1.db
    → P (committed old a o).1.db
unfolding committed
committed-Keeps P old a (none, c) before after = before
committed-Keeps P old a (some u, c) before after = after

finish-Keeps :
    {A : Type 0} (P : LocationDb → Type 0) (old : LocationDb) (o : Option A × Conn)
    → P old
    → P o.1.db
    → P (finish old o).1.db
unfolding finish
finish-Keeps P old (none, c) before after = before
finish-Keeps P old (some a, c) before after =
    committed-Keeps P old a (call c) before (IsRead-Keeps P call call-IsRead c after)

pub transaction-Keeps :
    {A : Type 0} (P : LocationDb → Type 0) (body : Query A)
    → Keeps P body
    → Keeps P (transaction body)
unfolding transaction
transaction-Keeps P body h c p =
    finish-Keeps P c.db ((call >> body) c) p
      (bind-Keeps P call (λ a. body) (IsRead-Keeps P call call-IsRead) (λ a. h) c p)

-- A method that leaves the database or does what its effect says keeps what the effect keeps.
pub Does-Keeps :
    {A : Type 0} (P : LocationDb → Type 0) (m : Query A) (v : LocationDb → A)
    (e : LocationDb → LocationDb)
    → Does m v e
    → IsAtomic m
    → ((d : LocationDb) → P d → P (e d))
    → Keeps P m
Does-Keeps P m v e does atomic h c p = elim (does c) [
  | inl (failed, fault) ↦ subst P (sym (atomic c failed)) p
  | inr (returned, left, clean) ↦ subst P (sym left) (h c.db p)
]
