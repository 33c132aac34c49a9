-- ===== src/Outbox/Delivery.antt =====
-- What a poll of the outbox does to it (apps/outbox-poller/src/poller.ts).
use flash_bite.Prelude.{
  String, ◌≡◌, refl, sym, ap, ◌∙◌, List, [], ◌∷◌, ◌++◌, map, filter, any, All, ok, throw, Exn, ◌==◌,
  arith, if◌then◌else◌, inl, inr, Bool-cases, Result-cases, ◌⊎◌,
}
use flash_bite.Shared.EventDb.{EventDb, OutboxRow, OutboxStatus, set_status}
use flash_bite.Outbox.{Broker, Poll, publish_envelope, publish_rows, poll_once, is_pending, take}

-- A row is marked as sent when its id is that of a row that was published.
abbrev pub mark : List OutboxRow → OutboxRow → OutboxRow
mark published row =
    if any (λ r. row.id == r.id) published then record row { status = OutboxStatus.sent } else row

mark-cons :
    (r : OutboxRow) (rs : List OutboxRow) (row : OutboxRow)
    → mark rs (set_status r.id OutboxStatus.sent row) ≡ mark (r ∷ rs) row
mark-cons r rs row = elim (Bool-cases (row.id == r.id)) [
  | inl e ↦ ground (arith, e)
  | inr e ↦ ground (arith, e)
]

marks-cons :
    (r : OutboxRow) (rs rows : List OutboxRow)
    → map (mark rs) (map (set_status r.id OutboxStatus.sent) rows) ≡ map (mark (r ∷ rs)) rows
marks-cons r rs [] = refl
marks-cons r rs (row ∷ rows) = rw (mark-cons r rs row, marks-cons r rs rows) refl

marks-nil : (rows : List OutboxRow) → map (mark []) rows ≡ rows
marks-nil [] = refl
marks-nil (r ∷ rows) = rw (marks-nil rows) refl

module _ (broker : Broker) (pg : EventDb) where
  open pg use {Db, outbox, rows, update_outbox}

  abbrev pub Accepted : OutboxRow → Type 0
  Accepted r = publish_envelope broker r.topic r.partition_key r.payload ≡ ok tt

  -- What a run over some waiting rows has done: it published a front part of them, in their order,
  -- and all of them unless the broker refused the next; it marked those as sent and changed no other
  -- row of the outbox, and no event.
  pub record IsDelivery (waiting : List OutboxRow) (db : Db) (poll : Poll Db) : Type 0 where
    pub left : List OutboxRow
    pub front : waiting ≡ poll.published ++ left
    pub accepted : All Accepted poll.published
    pub marked : outbox poll.db ≡ map (mark poll.published) (outbox db)
    pub events : (t a : String) → rows poll.db t a ≡ rows db t a
    pub stopped :
        ((poll.ended ≡ ok tt) × (left ≡ []))
        ⊎ ((x : Exn) × (r : OutboxRow) × (rest : List OutboxRow) × (poll.ended ≡ throw x)
            × (left ≡ r ∷ rest)
            × (publish_envelope broker r.topic r.partition_key r.payload ≡ throw x))

  Refused-first :
      (x : Exn) (r : OutboxRow) (rs : List OutboxRow) (db : Db)
      → publish_envelope broker r.topic r.partition_key r.payload ≡ throw x
      → IsDelivery (r ∷ rs) db (record { ended = throw x; db = db; published = [] })
  Refused-first x r rs db e = record {
    left = r ∷ rs;
    front = refl;
    accepted = tt;
    marked = sym (marks-nil (outbox db));
    events = λ t a. refl;
    stopped = inr (x, r, rs, refl, refl, e);
  }

  one_more :
      (r : OutboxRow) (rs : List OutboxRow) (db : Db) (poll : Poll Db)
      → Accepted r
      → IsDelivery rs (update_outbox db r.id OutboxStatus.sent) poll
      → IsDelivery (r ∷ rs) db (record poll { published = r ∷ poll.published })
  one_more r rs db poll e d = record {
    left = d.left;
    front = ap (λ l. r ∷ l) d.front;
    accepted = (e, d.accepted);
    marked =
        d.marked
        ∙ ap (map (mark poll.published)) (pg.outbox-update_outbox db r.id OutboxStatus.sent)
        ∙ marks-cons r poll.published (outbox db);
    events = λ t a. d.events t a ∙ pg.rows-update_outbox db r.id OutboxStatus.sent t a;
    stopped = d.stopped;
  }

  rows_delivery :
      (waiting : List OutboxRow) (db : Db)
      → IsDelivery waiting db (publish_rows broker pg waiting db)
  unfolding publish_rows
  rows_delivery [] db = record {
    left = [];
    front = refl;
    accepted = tt;
    marked = sym (marks-nil (outbox db));
    events = λ t a. refl;
    stopped = inl (refl, refl);
  }
  rows_delivery (r ∷ rs) db =
      elim (Result-cases (publish_envelope broker r.topic r.partition_key r.payload)) [
        | inr (x, e) ↦ rw (e, publish_rows) (Refused-first x r rs db e)
        | inl (tt, e) ↦
            rw (e, publish_rows)
              (one_more r rs db
                (publish_rows broker pg rs (update_outbox db r.id OutboxStatus.sent)) e
                (rows_delivery rs (update_outbox db r.id OutboxStatus.sent)))
      ]

  -- A poll goes over the hundred rows that have waited longest: it publishes a front part of them, in
  -- their order, and all of them unless the broker refuses the next; it marks those as sent and
  -- changes no other row of the outbox, and no event.
  pub poll_once-IsDelivery :
      (db : Db)
      → IsDelivery (take 100 (filter is_pending (outbox db))) db (poll_once broker pg db).1
  unfolding poll_once
  poll_once-IsDelivery db = rows_delivery (take 100 (filter is_pending (outbox db))) db
