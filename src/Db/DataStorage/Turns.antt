-- ===== src/Db/DataStorage/Turns.antt =====
-- The databases take turns.
use native.Mathlib.Nat.{add-zero, mod-lt, mod-eq_of_lt, mod-add-mod}
use akkon.Base.{
  ℕ, ◌+◌, ◌%◌, ◌<◌, ◌≡◌, refl, ap, ap₂, sym, ◌∙◌, false, inl, inr, Option, none, some, List, [],
  ◌∷◌, arith, length, length-set, get_elem?, get_elem?-in, All, ◌==◌, Bool-cases,
}
use akkon.Db.DataStorage.{
  DbEntity, DataStorage, row_of, rejected, finish_write, write_to, insert_entity,
}

module _ {Db : Type 0} (insert_row : Db → DbEntity → Option Db) where
  -- Attempts one after the other, each with the space that was free at its time.
  abbrev pub insert_entities : List (Option ℕ × DbEntity) → DataStorage Db → DataStorage Db
  insert_entities [] s = s
  insert_entities ((available, e) ∷ attempts) s =
      insert_entities attempts (insert_entity insert_row available e s).1

  finish_write-idx :
      (result : Option Db) (s : DataStorage Db)
      → ((finish_write result s).1.round_robin_idx ≡ (s.round_robin_idx + 1) % length s.data_dbs)
        × (length (finish_write result s).1.data_dbs ≡ length s.data_dbs)
  finish_write-idx none s = (refl, refl)
  finish_write-idx (some db') s = (refl, length-set s.data_dbs s.round_robin_idx db')

  write_to-idx :
      (found : Option Db) (e : DbEntity) (s : DataStorage Db)
      → get_elem? s.data_dbs s.round_robin_idx ≡ found
      → s.round_robin_idx < length s.data_dbs
      → ((write_to insert_row found e s).1.round_robin_idx
          ≡ (s.round_robin_idx + 1) % length s.data_dbs)
        × (length (write_to insert_row found e s).1.data_dbs ≡ length s.data_dbs)
  write_to-idx none e s at h = absurd (get_elem?-in s.data_dbs s.round_robin_idx h at)
  write_to-idx (some db) e s at h = finish_write-idx (insert_row db (row_of e)) s

  insert_entity-idx :
      (available : Option ℕ) (e : DbEntity) (s : DataStorage Db)
      → rejected available e ≡ false
      → s.round_robin_idx < length s.data_dbs
      → ((insert_entity insert_row available e s).1.round_robin_idx
          ≡ (s.round_robin_idx + 1) % length s.data_dbs)
        × (length (insert_entity insert_row available e s).1.data_dbs ≡ length s.data_dbs)
  unfolding insert_entity
  insert_entity-idx available e s passed h = elim (Bool-cases (length s.data_dbs == 0)) [
    | inl empty ↦ absurd (ground (arith, empty, h))
    | inr some_db ↦
        rw (insert_entity, some_db, passed)
          (write_to-idx (get_elem? s.data_dbs s.round_robin_idx) e s refl h)
  ]

  -- From an index within the databases, attempts that are not rejected move it on by one each, modulo the number of databases,
  -- whether or not their writes succeed; the number of databases stays.
  pub insert_entities-turns :
      (attempts : List (Option ℕ × DbEntity)) (s : DataStorage Db)
      → All (λ a. rejected a.0 a.1 ≡ false) attempts
      → s.round_robin_idx < length s.data_dbs
      → ((insert_entities attempts s).round_robin_idx
          ≡ (s.round_robin_idx + length attempts) % length s.data_dbs)
        × (length (insert_entities attempts s).data_dbs ≡ length s.data_dbs)
  insert_entities-turns [] s passed h = (rw add-zero (sym (mod-eq_of_lt h)), refl)
  insert_entities-turns ((available, e) ∷ attempts) s passed h =
      let first = insert_entity-idx available e s passed.0 h in
      let rest =
        insert_entities-turns attempts (insert_entity insert_row available e s).1 passed.1
          (rw (first.0, first.1) (mod-lt (s.round_robin_idx + 1) (omega arith))) in
      (
        rest.0
            ∙ ap₂ (λ i n. (i + length attempts) % n) first.0 first.1
            ∙ mod-add-mod (s.round_robin_idx + 1) (length s.data_dbs) (length attempts)
            ∙ ap (λ k. k % length s.data_dbs) (omega arith),
        rest.1 ∙ first.1,
      )
