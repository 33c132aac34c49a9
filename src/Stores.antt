-- ===== src/Stores.antt =====
-- What the services use of a table or a collection that they address by a unique key: a Postgres
-- table through Prisma's `findUnique`, a Mongo collection by `_id`, a Redis key. The laws are the
-- documented ones: a write is found again under its key, and under no other.
use flash_bite.Prelude.{
  ◌≡◌, ◌↔◌, Bool, true, List, [], ◌∷◌, Option, none, some, refl, if◌then◌else◌,
}

pub record KeyedStore (K V : Type 0) : Type 1 where
  pub Db : Type 0
  pub find : Db → K → Option V
  pub put : Db → K → V → Db
  pub same : K → K → Bool
  pub same_iff : (a b : K) → (same a b ≡ Bool.true) ↔ (a ≡ b)
  pub find-put :
      (db : Db) (k j : K) (v : V) → find (put db k v) j ≡ (if same k j then some v else find db j)

-- An association list meets the laws.
module _ (K V : Type 0) (same : K → K → Bool) where
  unfoldable pub find_entry : List (K × V) → K → Option V
  find_entry [] k = none
  find_entry ((j, v) ∷ m) k = if same j k then some v else find_entry m k

  pub find_entry-cons :
      (m : List (K × V)) (k j : K) (v : V)
      → find_entry ((k, v) ∷ m) j ≡ (if same k j then some v else find_entry m j)
  unfolding find_entry
  find_entry-cons m k j v = refl

  abbrev pub association_list : ((a b : K) → (same a b ≡ true) ↔ (a ≡ b)) → KeyedStore K V
  association_list same_iff = record {
    Db = List (K × V);
    find = find_entry;
    put = λ m k v. (k, v) ∷ m;
    same = same;
    same_iff = same_iff;
    find-put = find_entry-cons;
  }
