-- ===== src/Tests/Tables.antt =====
-- Tables as lists, newest row first: they meet the laws of the interface `EventDb`.
use flash_bite.Prelude.{
  String, ◌≡◌, refl, Bool, ◌&&◌, ◌||◌, List, [], ◌∷◌, ◌++◌, map, any, ◌==◌, arith, if◌then◌else◌,
  subst,
}
use flash_bite.Shared.EventDb.{
  EventDb, EventRow, OutboxRow, Write, written, unique_violation, denied, WriteStatus, done, unique,
  refused, write_status, insertion, insert_by_version, version_taken, set_status,
}

pub record Tables : Type 0 where
  pub events : List EventRow
  pub outbox : List OutboxRow

abbrev pub rows_of : List EventRow → String → String → List EventRow
rows_of [] t a = []
rows_of (r ∷ rs) t a =
    let rest = rows_of rs t a in
    if r.tenant_id == t && r.aggregate_id == a then insert_by_version r rest else rest

abbrev pub written_as {ℓ} : {A : Type ℓ} → WriteStatus → A → Write A
written_as done db = written db
written_as unique db = unique_violation
written_as refused db = denied

pub write_status_as {ℓ} :
    {A : Type ℓ} (s : WriteStatus) (db : A) → write_status (written_as s db) ≡ s
write_status_as done db = refl
write_status_as unique db = refl
write_status_as refused db = refl

pub written_is : (s : WriteStatus) (db db' : Tables) → written_as s db ≡ written db' → db ≡ db'
written_is done db db' e = ground (arith, e)
written_is unique db db' e = ground (arith, e)
written_is refused db db' e = ground (arith, e)

abbrev pub event_taken : Tables → String → Bool
event_taken db id = any (λ r. r.id == id) db.events

abbrev pub outbox_taken : Tables → String → Bool
outbox_taken db id = any (λ r. r.id == id) db.outbox

abbrev pub with_event : EventRow → Tables → Tables
with_event row db = record db { events = row ∷ db.events }

abbrev pub with_outbox : OutboxRow → Tables → Tables
with_outbox row db = record db { outbox = db.outbox ++ row ∷ [] }

abbrev pub lists : EventDb
lists = record {
  Db = Tables;
  rows = λ db t a. rows_of db.events t a;
  outbox = λ db. db.outbox;
  event_id_taken = event_taken;
  outbox_id_taken = outbox_taken;
  create_event = λ app db row.
      written_as
        (insertion (app == row.tenant_id) (
          event_taken db row.id
          || version_taken row.version (rows_of db.events row.tenant_id row.aggregate_id)))
        (with_event row db);
  create_outbox = λ app db row.
      written_as (insertion (app == row.tenant_id) (outbox_taken db row.id)) (with_outbox row db);
  update_outbox = λ db id status. record db { outbox = map (set_status id status) db.outbox };
  write_status-create_event = λ app db row. write_status_as _ (with_event row db);
  rows-create_event = λ app db db' row t a e.
      subst
        (λ d. rows_of d.events t a ≡ (
          if row.tenant_id == t && row.aggregate_id == a
          then insert_by_version row (rows_of db.events t a)
          else rows_of db.events t a))
        (written_is _ (with_event row db) db' e) refl;
  outbox-create_event = λ app db db' row e.
      subst (λ d. d.outbox ≡ db.outbox) (written_is _ (with_event row db) db' e) refl;
  outbox_id_taken-create_event = λ app db db' row id e.
      subst (λ d. outbox_taken d id ≡ outbox_taken db id) (written_is _ (with_event row db) db' e)
        refl;
  write_status-create_outbox = λ app db row. write_status_as _ (with_outbox row db);
  rows-create_outbox = λ app db db' row t a e.
      subst (λ d. rows_of d.events t a ≡ rows_of db.events t a)
        (written_is _ (with_outbox row db) db' e) refl;
  outbox-create_outbox = λ app db db' row e.
      subst (λ d. d.outbox ≡ db.outbox ++ row ∷ []) (written_is _ (with_outbox row db) db' e) refl;
  outbox-update_outbox = λ db id status. refl;
  rows-update_outbox = λ db id status t a. refl;
}
