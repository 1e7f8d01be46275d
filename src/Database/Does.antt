-- ===== src/Database/Does.antt =====
-- What a method of the repository does to the database, and how that is composed.
use address_quality.Prelude.{
  none, some, inl, inr, [], ◌∷◌, true, false, List, ◌≡◌, refl, ◌⊎◌, ◌≢◌, Bool, Option-cases, ◌∙◌,
  Option, subst, ap,
}
use address_quality.GoMap.{RangeOrder}
use address_quality.Database.{
  LocationDb, Conn, Query, pure, ◌>>=◌, ◌>>◌, call, query, exec, transaction, modify, gets,
  committed, finish,
}

-- The method fails, which needs a failing call, or it returns a value and leaves a database, both
-- functions of the database that it starts from.
abbrev pub Does : {A : Type 0} → Query A → (LocationDb → A) → (LocationDb → LocationDb) → Type 0
Does m value effect =
    (c : Conn)
    → (((m c).0 ≡ none) × (c.faults ≢ []))
      ⊎ (((m c).0 ≡ some (value c.db))
          × ((m c).1.db ≡ effect c.db)
          × (c.faults ≡ [] → (m c).1.faults ≡ []))

-- The method writes nothing.
abbrev pub IsRead : {A : Type 0} → Query A → Type 0
IsRead m = (c : Conn) → (m c).1.db ≡ c.db

-- When the method fails it leaves the database as it was.
abbrev pub IsAtomic : {A : Type 0} → Query A → Type 0
IsAtomic m = (c : Conn) → (m c).0 ≡ none → (m c).1.db ≡ c.db

pub pure-Does : {A : Type 0} (a : A) → Does (pure a) (λ d. a) (λ d. d)
pure-Does a c = inr (refl, refl, λ h. h)

pub bind-Does :
    {A B : Type 0} (m : Query A) (k : A → Query B) (v : LocationDb → A)
    (e : LocationDb → LocationDb) (v' : A → LocationDb → B) (e' : A → LocationDb → LocationDb)
    → Does m v e
    → ((a : A) → Does (k a) (v' a) (e' a))
    → Does (m >>= k) (λ d. v' (v d) (e d)) (λ d. e' (v d) (e d))
bind-Does m k v e v' e' hm hk c = elim (hm c) [
  | inl (failed, fault) ↦ inl (rw (◌>>=◌, failed) refl, fault)
  | inr (returned, left, clean) ↦ elim (hk (v c.db) (m c).1) [
    | inl (failed, fault) ↦ inl (rw (◌>>=◌, returned) failed, λ h. fault (clean h))
    | inr (returned', left', clean') ↦ inr (
      rw (◌>>=◌, returned, ← left) returned',
      rw (◌>>=◌, returned, ← left) left',
      rw (◌>>=◌, returned) (λ h. clean' (clean h)),
    )
  ]
]

call_on-Does :
    (db : LocationDb) (faults : List Bool)
    → (((call (record { db = db; faults = faults })).0 ≡ none) × (faults ≢ []))
      ⊎ (((call (record { db = db; faults = faults })).0 ≡ some tt)
          × ((call (record { db = db; faults = faults })).1.db ≡ db)
          × (faults ≡ [] → (call (record { db = db; faults = faults })).1.faults ≡ []))
unfolding call
call_on-Does db [] = inr (refl, refl, λ h. refl)
call_on-Does db (true ∷ faults) = inl (refl, λ h. cc)
call_on-Does db (false ∷ faults) = inr (refl, refl, λ h. cc)

pub call-Does : Does call (λ d. tt) (λ d. d)
call-Does c = call_on-Does c.db c.faults

call_on-IsRead :
    (db : LocationDb) (faults : List Bool) → (call (record { db = db; faults = faults })).1.db ≡ db
unfolding call
call_on-IsRead db [] = refl
call_on-IsRead db (true ∷ faults) = refl
call_on-IsRead db (false ∷ faults) = refl

pub call-IsRead : IsRead call
call-IsRead c = call_on-IsRead c.db c.faults

pub bind-IsRead :
    {A B : Type 0} (m : Query A) (k : A → Query B)
    → IsRead m
    → ((a : A) → IsRead (k a))
    → IsRead (m >>= k)
bind-IsRead m k hm hk c = elim (Option-cases (m c).0) [
  | inl failed ↦ rw (◌>>=◌, failed) (hm c)
  | inr (a, returned) ↦ rw (◌>>=◌, returned) (hk a (m c).1 ∙ hm c)
]

pub IsRead-IsAtomic : {A : Type 0} (m : Query A) → IsRead m → IsAtomic m
IsRead-IsAtomic m h c failed = h c

pub bind-IsAtomic :
    {A B : Type 0} (m : Query A) (k : A → Query B)
    → IsRead m
    → ((a : A) → IsAtomic (k a))
    → IsAtomic (m >>= k)
bind-IsAtomic m k hm hk c failed = elim (Option-cases (m c).0) [
  | inl none_first ↦ rw (◌>>=◌, none_first) (hm c)
  | inr (a, returned) ↦ rw (◌>>=◌, returned) (hk a (m c).1 (rw (◌>>=◌, returned) at failed) ∙ hm c)
]

pub exec-Does : (f : LocationDb → LocationDb) → Does (exec f) (λ d. tt) f
unfolding exec
exec-Does f =
    bind-Does call (λ a. modify f) (λ d. tt) (λ d. d) (λ a d. tt) (λ a. f) call-Does
      (λ a c. inr (refl, refl, λ h. h))

pub query-Does :
    {A : Type 0} (order : RangeOrder) (rows : LocationDb → List A)
    → Does (query order rows) (λ d. order.visit A (rows d)) (λ d. d)
unfolding query
query-Does {A = A} order rows =
    bind-Does (call >> call) (λ a. gets (λ d. some (order.visit A (rows d)))) (λ d. tt) (λ d. d)
      (λ a d. order.visit _ (rows d)) (λ a d. d)
      (bind-Does call (λ a. call) (λ d. tt) (λ d. d) (λ a d. tt) (λ a d. d) call-Does
        (λ a. call-Does))
      (λ a c. inr (refl, refl, λ h. h))

pub query-IsRead :
    {A : Type 0} (order : RangeOrder) (rows : LocationDb → List A) → IsRead (query order rows)
unfolding query
query-IsRead {A = A} order rows =
    bind-IsRead (call >> call) (λ a. gets (λ d. some (order.visit A (rows d))))
      (bind-IsRead call (λ a. call) call-IsRead (λ a. call-IsRead)) (λ a c. refl)

committed-IsAtomic :
    {A : Type 0} (db : LocationDb) (a : A) (o : Option (Unit {0}) × Conn)
    → (committed db a o).0 ≡ none
    → (committed db a o).1.db ≡ db
unfolding committed
committed-IsAtomic db a (none, c) failed = refl
committed-IsAtomic db a (some u, c) failed = cc

finish-IsAtomic :
    {A : Type 0} (db : LocationDb) (o : Option A × Conn)
    → (finish db o).0 ≡ none
    → (finish db o).1.db ≡ db
unfolding finish
finish-IsAtomic db (none, c) failed = refl
finish-IsAtomic db (some a, c) failed = committed-IsAtomic db a (call c) failed

pub transaction-IsAtomic : {A : Type 0} (body : Query A) → IsAtomic (transaction body)
unfolding transaction
transaction-IsAtomic body c failed = finish-IsAtomic c.db ((call >> body) c) failed

-- What `Does` says of the outcome of one run.
abbrev Ends : {A : Type 0} → Conn → A → LocationDb → Option A × Conn → Type 0
Ends c a db o =
    ((o.0 ≡ none) × (c.faults ≢ []))
    ⊎ ((o.0 ≡ some a) × (o.1.db ≡ db) × (c.faults ≡ [] → o.1.faults ≡ []))

committed-Ends :
    {A : Type 0} (c : Conn) (old : LocationDb) (a : A) (db : LocationDb)
    (o : Option (Unit {0}) × Conn)
    → Ends c tt db o
    → Ends c a db (committed old a o)
unfolding committed
committed-Ends c old a db (none, c') (inl (failed, fault)) = inl (refl, fault)
committed-Ends c old a db (none, c') (inr (returned, left, clean)) = cc
committed-Ends c old a db (some u, c') (inl (failed, fault)) = cc
committed-Ends c old a db (some u, c') (inr (returned, left, clean)) = inr (refl, left, clean)

Ends-after :
    (c c' : Conn) (db : LocationDb) (o : Option (Unit {0}) × Conn)
    → (c.faults ≡ [] → c'.faults ≡ [])
    → Ends c' tt db o
    → Ends c tt db o
Ends-after c c' db o clean (inl (failed, fault)) = inl (failed, λ h. fault (clean h))
Ends-after c c' db o clean (inr (returned, left, clean')) =
    inr (returned, left, λ h. clean' (clean h))

finish-Ends :
    {A : Type 0} (c : Conn) (old : LocationDb) (a : A) (db : LocationDb) (o : Option A × Conn)
    → Ends c a db o
    → Ends c a db (finish old o)
unfolding finish
finish-Ends c old a db (none, c') (inl (failed, fault)) = inl (refl, fault)
finish-Ends c old a db (none, c') (inr (returned, left, clean)) = cc
finish-Ends c old a db (some b, c') (inl (failed, fault)) = cc
finish-Ends c old a db (some b, c') (inr (returned, left, clean)) =
    subst (λ x. Ends c x db (committed old b (call c'))) (cc)
      (committed-Ends c old b db (call c') (
        Ends-after c c' db (call c') clean
          (subst (λ x. Ends c' tt x (call c')) left (call-Does c'))))

-- What a transaction does is what its statements do.
pub transaction-Does :
    {A : Type 0} (body : Query A) (v : LocationDb → A) (e : LocationDb → LocationDb)
    → Does body v e
    → Does (transaction body) v e
unfolding transaction
transaction-Does body v e h c =
    finish-Ends c c.db (v c.db) (e c.db) ((call >> body) c)
      (bind-Does call (λ u. body) (λ d. tt) (λ d. d) (λ a. v) (λ a. e) call-Does (λ a. h) c)

pub Does-ext :
    {A : Type 0} (m : Query A) (v v' : LocationDb → A) (e e' : LocationDb → LocationDb)
    → Does m v e
    → ((d : LocationDb) → v d ≡ v' d)
    → ((d : LocationDb) → e d ≡ e' d)
    → Does m v' e'
Does-ext m v v' e e' h same_value same_effect c = elim (h c) [
  | inl failure ↦ inl failure
  | inr (returned, left, clean) ↦
      inr (returned ∙ ap some (same_value c.db), left ∙ same_effect c.db, clean)
]

pub exec-IsAtomic : (f : LocationDb → LocationDb) → IsAtomic (exec f)
unfolding exec
exec-IsAtomic f = bind-IsAtomic call (λ a. modify f) call-IsRead (λ a c failed. cc)
