-- ===== src/Fuzzy/Recover/Fresh.antt =====
-- The entities that contextual recovery adds.
use address_quality.Prelude.{
  nat_eq, string_eq, inl, inr, none, some, [], ◌∷◌, List, ℕ, contains, All, Bool, ◌++◌, String, ◌≡◌,
  arith, true, false, Bool-cases, All-append, refl, map, length, suc, Option-cases, get_or, min,
  drop, take, zero, if◌then◌else◌, subst,
}
use address_quality.Model.{Entity, ResolvedEvidence}
use address_quality.Resolve.{append_unseen}
use address_quality.Fuzzy.Recover.{
  Recovery, take_span, longest_span, recover_run, recover_runs, known_entities,
  recover_contextual_evidence, keep_span, RangeOrder, Caches, AdminCandidate, max_span_tokens, join,
}

-- The set of ids holds all of another.
abbrev HoldsAll : List ℕ → List ℕ → Type 0
HoldsAll small big = (a : ℕ) → contains small a ≡ true → contains big a ≡ true

-- The entities' ids are not in the set.
abbrev pub AreNew : List ℕ → List Entity → Type 0
AreNew known = All (λ e. contains known e.id ≡ false)

append_unseen-AreNew :
    (known seen : List ℕ) (dst es : List Entity)
    → HoldsAll known seen
    → AreNew known dst
    → AreNew known (append_unseen seen dst es)
unfolding append_unseen
append_unseen-AreNew known seen dst [] h d = d
append_unseen-AreNew known seen dst (e ∷ es) h d = elim (Bool-cases (contains seen e.id)) [
  | inl old ↦ rw (old, append_unseen) (append_unseen-AreNew known seen dst es h d)
  | inr new ↦
      rw (new, append_unseen)
        (append_unseen-AreNew known (e.id ∷ seen) (dst ++ e ∷ []) es (λ a k. ground (arith, h a k))
          (All-append (λ e. contains known e.id ≡ false) dst (e ∷ []) d (outside (h e.id) new, tt)))
]
  where
    outside : {b c : Bool} → (b ≡ true → c ≡ true) → c ≡ false → b ≡ false
    outside {b = true} f no_c = cc (f refl, no_c)
    outside {b = false} f no_c = refl

-- The invariant of the loops, from the ids known at the start.
record IsFresh (known : List ℕ) (r : Recovery) : Type 0 where
  knows : HoldsAll known r.known_entity
  news : All (λ re. AreNew known re.candidates) r.recovered

HoldsAll-append : (known xs ys : List ℕ) → HoldsAll known ys → HoldsAll known (xs ++ ys)
HoldsAll-append known [] ys h a k = h a k
HoldsAll-append known (x ∷ xs) ys h a k = ground (arith, HoldsAll-append known xs ys h a k)

keep_span-IsFresh :
    (known : List ℕ) (text : String) (span : List String) (fresh : List Entity) (r : Recovery)
    → AreNew known fresh
    → IsFresh known r
    → IsFresh known (keep_span text span fresh r)
unfolding keep_span
keep_span-IsFresh known text span [] r new f = record { knows = f.knows; news = f.news }
keep_span-IsFresh known text span (e ∷ es) r new f = record {
  knows = HoldsAll-append known (e.id ∷ map (λ x. x.id) es) r.known_entity f.knows;
  news = All-append (λ re. AreNew known re.candidates) r.recovered (_ ∷ []) f.news (new, tt);
}

take_span-IsFresh :
    (known : List ℕ) (text : String) (span : List String) (ents : List Entity) (r : Recovery)
    → IsFresh known r
    → IsFresh known (take_span text span ents r)
unfolding take_span
take_span-IsFresh known text span ents r f =
    keep_span-IsFresh known text span (append_unseen r.known_entity [] ents) r
      (append_unseen-AreNew known r.known_entity [] ents f.knows tt) f

module _ (order : RangeOrder) (targets : List (String × List Entity)) (known : List ℕ) where
  recover_run-IsFresh :
      (fuel : ℕ) (words : List String) (r : Recovery)
      → IsFresh known r
      → IsFresh known (recover_run order targets fuel words r)
  unfolding recover_run
  recover_run-IsFresh zero words r f = f
  recover_run-IsFresh (suc fuel) [] r f = f
  recover_run-IsFresh (suc fuel) (w ∷ rest) r f =
      elim (Option-cases
        (longest_span order targets (w ∷ rest) (min max_span_tokens (length (w ∷ rest))))) [
          | inl nothing ↦ rw (nothing, recover_run) (recover_run-IsFresh fuel rest r f)
          | inr ((l, ents), found) ↦
              rw (found, recover_run)
                (recover_run-IsFresh fuel (drop l (w ∷ rest))
                  (take_span (join " " (take l (w ∷ rest))) (take l (w ∷ rest)) ents r)
                  (take_span-IsFresh known (join " " (take l (w ∷ rest))) (take l (w ∷ rest)) ents r
                    f))
        ]

  recover_runs-IsFresh :
      (words : List String) (runs : List (List ℕ)) (r : Recovery)
      → IsFresh known r
      → IsFresh known (recover_runs order targets words runs r)
  unfolding recover_runs
  recover_runs-IsFresh words [] r f = f
  recover_runs-IsFresh words (run ∷ runs) r f =
      recover_runs-IsFresh words runs
        (recover_run order targets (length run) (map (λ i. get_or words i "") run) r)
        (recover_run-IsFresh (length run) (map (λ i. get_or words i "") run) r f)

some_inj : {A : Type 0} (x r : A) → some x ≡ some r → x ≡ r
some_inj x r e = cc e

guarded :
    {A : Type 0} (P : A → Type 0) (b : Bool) (x r : A)
    → P x
    → (if b then none else some x) ≡ some r
    → P r
guarded P true x r p e = cc e
guarded P false x r p e = subst P (some_inj x r e) p

start :
    (known : List ℕ)
    → IsFresh known
        (record { known_entity = known; recovered = []; corrections = []; explained = [] })
start known = record { knows = λ a k. k; news = tt }

-- Contextual recovery adds only entities that no piece of evidence, postal codes apart, had resolved
-- to before.
pub recover_contextual_evidence-AreNew :
    (order : RangeOrder) (s : Caches) (candidates : List AdminCandidate)
    (resolved : List ResolvedEvidence) (normalized : String) (road_tokens : List String)
    (r : Recovery)
    → recover_contextual_evidence order s candidates resolved normalized road_tokens ≡ some r
    → All (λ re. AreNew (known_entities resolved) re.candidates) r.recovered
unfolding recover_contextual_evidence
recover_contextual_evidence-AreNew order s candidates resolved normalized road_tokens r e =
    guarded (λ x. All (λ re. AreNew (known_entities resolved) re.candidates) x.recovered) _ _ r
      (recover_runs-IsFresh order _ (known_entities resolved) _ _ _
        (start (known_entities resolved))).news
      e
