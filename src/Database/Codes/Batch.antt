-- ===== src/Database/Codes/Batch.antt =====
-- The statements of one batch, and the batches of the seeder, against the rows one by one.
use mathlib.Core.List.{foldl, foldl-append}
use address_quality.Prelude.{nat_eq, string_eq, [], ◌∷◌, refl, List, ℕ, sym, ap, arith}
use address_quality.Chunks.{chunks, concat, chunks-concat}
use address_quality.Seeder.{LocationCodeRow}
use address_quality.Database.{exec}
use address_quality.Database.Does.{
  Does, Does-ext, IsAtomic, bind-Does, exec-Does, pure-Does, transaction-Does, transaction-IsAtomic,
}
use address_quality.Database.Codes.{
  insert_code, insert_chunks, chunk_size, insert_location_code_batch,
}

insert_chunks-Does :
    (source_id : ℕ) (groups : List (List LocationCodeRow))
    → Does
        (insert_chunks source_id groups)
        (λ d. tt)
        (λ d. foldl (insert_code source_id) d (concat groups))
unfolding insert_chunks
insert_chunks-Does source_id [] = pure-Does tt
insert_chunks-Does source_id (g ∷ groups) =
    Does-ext _ _ _ _ _
      (bind-Does (exec (λ d. foldl (insert_code source_id) d g))
        (λ a. insert_chunks source_id groups) (λ d. tt) _ (λ a d. tt) (λ a. _)
        (exec-Does (λ d. foldl (insert_code source_id) d g))
        (λ a. insert_chunks-Does source_id groups))
      (λ d. refl) (λ d. sym (foldl-append (insert_code source_id) d g (concat groups)))

-- A batch inserts its rows one after the other, in as many statements as it takes, or fails.
pub insert_location_code_batch-Does :
    (source_id : ℕ) (rows : List LocationCodeRow)
    → Does
        (insert_location_code_batch source_id rows)
        (λ d. tt)
        (λ d. foldl (insert_code source_id) d rows)
unfolding insert_location_code_batch chunk_size
insert_location_code_batch-Does source_id [] = pure-Does tt
insert_location_code_batch-Does source_id (r ∷ rows) =
    Does-ext _ _ _ _ _
      (transaction-Does _ _ _ (insert_chunks-Does source_id (chunks 4000 (r ∷ rows)))) (λ d. refl)
      (λ d. ap (foldl (insert_code source_id) d) (chunks-concat 4000 (r ∷ rows) (omega arith)))

pub insert_location_code_batch-IsAtomic :
    (source_id : ℕ) (rows : List LocationCodeRow)
    → IsAtomic (insert_location_code_batch source_id rows)
unfolding insert_location_code_batch
insert_location_code_batch-IsAtomic source_id [] = λ c failed. refl
insert_location_code_batch-IsAtomic source_id (r ∷ rows) =
    transaction-IsAtomic (insert_chunks source_id (chunks chunk_size (r ∷ rows)))
